-- ===== src/Analyzer/Correlate.antt =====
-- internal/analyzer/correlate.go: the signals that are active for a pod and the boosts they earn.
pub mod Boosts
use self_healing_kubernetes.Base.{
  String, Bool, true, false, Option, none, some, List, [], ◌∷◌, all, string_Eq, if◌then◌else◌,
  Keyed, lookup, insert,
}
use self_healing_kubernetes.Analyzer.Window.{Floats}

abbrev pub ActiveSignalSet : Type 0
ActiveSignalSet = Keyed {0, 0} String Unit

unfoldable pub has : ActiveSignalSet → String → Bool
has s metric = elim (lookup metric s) [ none ↦ false | some _ ↦ true ]

unfoldable pub all_signals_active : ActiveSignalSet → List String → Bool
all_signals_active active required = all (has active) required

-- The loop `for _, id := range triggeredRuleIDs { set[id] = struct{}{} }`.
unfoldable pub add_signals : ActiveSignalSet → List String → ActiveSignalSet
add_signals set [] = set
add_signals set (id ∷ ids) = add_signals (insert id tt set) ids

unfoldable pub build_active_set : List String → ActiveSignalSet
build_active_set ids = add_signals [] ids

module _ (floats : Floats) where
  open floats use {Float}

  pub record Correlation : Type 0 where
    pub signals : List String
    pub boost : Float
    pub interpretation : String

  -- The loop of `EvaluateCorrelations` from a total.
  unfoldable pub add_boosts : ActiveSignalSet → Float → List Correlation → Float
  add_boosts active total [] = total
  add_boosts active total (corr ∷ rest) =
      add_boosts active
        (if all_signals_active active corr.signals then floats.add total corr.boost else total) rest

  unfoldable pub evaluate_correlations : ActiveSignalSet → List Correlation → Float
  evaluate_correlations active correlations = add_boosts active floats.zero correlations
