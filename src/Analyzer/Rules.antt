-- ===== src/Analyzer/Rules.antt =====
-- internal/analyzer/rules.go: the rules, and how the engine tests a value against one.
use self_healing_kubernetes.Base.{
  ℕ, String, Bool, false, Option, none, some, List, keep, ◌==◌, string_Eq, if◌then◌else◌,
}
use self_healing_kubernetes.Analyzer.Window.{Floats}
use self_healing_kubernetes.Analyzer.Correlate.{Correlation}

abbrev pub op_greater_than : String
op_greater_than = ">"

abbrev pub op_greater_or_equal : String
op_greater_or_equal = ">="

abbrev pub op_less_than : String
op_less_than = "<"

abbrev pub op_less_or_equal : String
op_less_or_equal = "<="

abbrev pub op_equal : String
op_equal = "=="

module _ (floats : Floats) where
  open floats use {Float}

  pub record Condition : Type 0 where
    pub operator : String
    pub value : Float

  pub record Rule : Type 0 where
    pub id : String
    pub description : String
    pub metric : String
    pub condition : Condition
    pub window : String
    pub confidence_base : Float
    pub min_signals : ℕ
    pub suggested_cause : String
    pub suggested_action : String
    pub enabled : Bool

  pub record RulesConfig : Type 0 where
    pub rules : List Rule
    pub correlations : List (Correlation floats)
    pub single_signal_penalty : Float
    pub suppress : Float
    pub log_only : Float
    pub take_action : Float

  -- `data` is what `os.ReadFile` answers, `unmarshal` is `yaml.Unmarshal`; `none` is an error.
  unfoldable pub load_rules :
      {D : Type 0} (unmarshal : D → Option RulesConfig) (data' : Option D)
      → Option (List Rule × RulesConfig)
  load_rules unmarshal data' = elim data' [
    | none ↦ none
    | some d ↦ elim (unmarshal d) [
      | none ↦ none
      | some cfg ↦ some (keep (λ r. r.enabled) cfg.rules, cfg)
    ]
  ]

  unfoldable pub breaches : Float → Condition → Bool
  breaches value c =
      if c.operator == op_greater_than
      then floats.greater value c.value
      else if c.operator == op_greater_or_equal
      then floats.at_least value c.value
      else if c.operator == op_less_than
      then floats.greater c.value value
      else if c.operator == op_less_or_equal
      then floats.at_least c.value value
      else if c.operator == op_equal
      then floats.equals value c.value
      else false
