-- ===== src/Guardrails/Policy.antt =====
-- internal/controller/guardrails/policy.go: the guardrails configuration and its queries.
-- `time.ParseDuration` is a parameter; `none` stands for its error. Counts, percentages and
-- durations of the configuration are not negative.
pub mod Labels
use self_healing_kubernetes.Base.{
  ℕ, ◌*◌, String, Bool, true, false, ◌||◌, Option, none, some, List, any, ltb, ◌==◌, string_Eq,
  if◌then◌else◌, Keyed, lookup, Duration, second,
}

pub record ActionConfig : Type 0 where
  pub risk_level : String
  pub requires_confirmation : Bool
  pub cooldown : String
  pub max_per_hour : ℕ
  pub max_memory_increase_pct : ℕ
  pub max_cpu_increase_pct : ℕ
  pub min_affected_pods : ℕ
  pub max_scale_factor : ℕ

pub record ProtectedLabel : Type 0 where
  pub key : String
  pub value : String

pub record CircuitBreakerConfig : Type 0 where
  pub enabled : Bool
  pub trigger_on_failure_pct : ℕ
  pub evaluation_window : String
  pub response : String
  pub pause_duration : String
  pub alert_on_trip : Bool

pub record EscalationStep : Type 0 where
  pub action : String
  pub max_attempts : ℕ
  pub wait_between_attempts : String
  pub requires_pod_count : ℕ
  pub alert : Bool

-- The anonymous structs of the YAML schema.
pub record Global : Type 0 where
  pub max_actions_per_10s : ℕ
  pub max_actions_per_minute : ℕ
  pub dry_run : Bool

pub record DryRunMode : Type 0 where
  pub enabled : Bool
  pub log_would_have_acted : Bool

pub record PerPod : Type 0 where
  pub max_restarts_per_hour : ℕ
  pub cooldown_after_restart : String
  pub max_resource_patches_per_hour : ℕ
  pub cooldown_after_resource_patch : String
  pub max_reschedules_per_hour : ℕ
  pub cooldown_after_reschedule : String

pub record PerNode : Type 0 where
  pub max_cordons_per_hour : ℕ
  pub cooldown_after_cordon : String
  pub cordon_requires_min_affected_pods : ℕ
  pub drain_requires_manual_approval : Bool

pub record EscalationConfig : Type 0 where
  pub restart_observation_window : String
  pub reschedule_observation_window : String
  pub max_autonomous_attempts : ℕ
  pub escalation_path : List EscalationStep

pub record Policy : Type 0 where
  pub global : Global
  pub dry_run_mode : DryRunMode
  pub per_pod : PerPod
  pub per_node : PerNode
  pub escalation : EscalationConfig
  pub circuit_breaker : CircuitBreakerConfig
  pub protected_namespaces : List String
  pub protected_labels : List ProtectedLabel
  pub actions : Keyed String ActionConfig

unfoldable pub is_protected_namespace : Policy → String → Bool
is_protected_namespace p ns = any (λ protected. ns == protected) p.protected_namespaces

-- `if v, ok := labels[pl.Key]; ok && v == pl.Value`
unfoldable pub label_matches : Keyed String String → ProtectedLabel → Bool
label_matches labels pl = elim (lookup pl.key labels) [ none ↦ false | some v ↦ v == pl.value ]

unfoldable pub is_protected_pod : Policy → Keyed String String → Bool
unfolding label_matches
is_protected_pod p labels = any (label_matches labels) p.protected_labels

unfoldable pub max_per_hour : Policy → String → ℕ
max_per_hour p action = elim (lookup action p.actions) [ none ↦ 1 | some cfg ↦ cfg.max_per_hour ]

unfoldable pub requires_confirmation : Policy → String → Bool
requires_confirmation p action = elim (lookup action p.actions) [
  | none ↦ true
  | some cfg ↦ cfg.requires_confirmation
]

unfoldable pub max_memory_increase_pct : Policy → ℕ
max_memory_increase_pct p = elim (lookup "patch_resource_limits" p.actions) [
  | none ↦ 100
  | some cfg ↦ if ltb 0 cfg.max_memory_increase_pct then cfg.max_memory_increase_pct else 100
]

unfoldable pub cordon_min_pod_count : Policy → ℕ
cordon_min_pod_count p = p.per_node.cordon_requires_min_affected_pods

unfoldable pub is_dry_run : Policy → Bool
is_dry_run p = p.dry_run_mode.enabled || p.global.dry_run

module _ (parse_duration : String → Option Duration) where
  -- `if d, err := time.ParseDuration(s); err == nil { return d }; return fallback`
  unfoldable pub parse_or : String → Duration → Duration
  parse_or s fallback = elim (parse_duration s) [ none ↦ fallback | some d ↦ d ]

  unfoldable pub cooldown_for : Policy → String → Duration
  unfolding parse_or
  cooldown_for p action = elim (lookup action p.actions) [
    | none ↦ 60 * second
    | some cfg ↦ parse_or cfg.cooldown (60 * second)
  ]

  unfoldable pub observation_window : Policy → String → Duration
  unfolding parse_or
  observation_window p action =
      if action == "restart_pod"
      then parse_or p.escalation.restart_observation_window (60 * second)
      else if action == "reschedule_pod"
      then parse_or p.escalation.reschedule_observation_window (120 * second)
      else 90 * second
