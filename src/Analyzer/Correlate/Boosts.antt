-- ===== src/Analyzer/Correlate/Boosts.antt =====
-- The boost against the list of the triggered rules.
use self_healing_kubernetes.Base.{
  String, ◌≡◌, refl, ◌∙◌, Bool, ◌||◌, List, [], ◌∷◌, arith, all, any, keep, Bool-cases, inl, inr,
  ◌==◌, string_Eq, lookup, insert, lookup-insert,
}
use self_healing_kubernetes.Analyzer.Window.{Floats}
use self_healing_kubernetes.Analyzer.Correlate.{
  ActiveSignalSet, has, all_signals_active, add_signals, build_active_set, Correlation, add_boosts,
  evaluate_correlations,
}

has-insert :
    (set : ActiveSignalSet) (id metric : String)
    → has (insert id tt set) metric ≡ ((id == metric) || has set metric)
unfolding has
has-insert set id metric = ground (arith, lookup-insert id metric tt set)

has-add_signals :
    (set : ActiveSignalSet) (ids : List String) (metric : String)
    → has (add_signals set ids) metric ≡ (has set metric || any (λ id. id == metric) ids)
unfolding add_signals
has-add_signals set [] metric = ground arith
has-add_signals set (id ∷ ids) metric =
    ground (arith, has-add_signals (insert id tt set) ids metric, has-insert set id metric)

has-build_active_set :
    (ids : List String) (metric : String)
    → has (build_active_set ids) metric ≡ any (λ id. id == metric) ids
unfolding build_active_set
has-build_active_set ids metric = has-add_signals [] ids metric ∙ (unfold has lookup in refl)

-- Every required signal is the id of a triggered rule.
abbrev pub triggered : List String → List String → Bool
triggered ids required = all (λ metric. any (λ id. id == metric) ids) required

all_signals_active-triggered :
    (ids required : List String)
    → all_signals_active (build_active_set ids) required ≡ triggered ids required
unfolding all_signals_active
all_signals_active-triggered ids [] = refl
all_signals_active-triggered ids (metric ∷ rest) =
    ground (arith, has-build_active_set ids metric, all_signals_active-triggered ids rest)

module _ (floats : Floats) where
  open floats use {Float}

  -- The sum of the boosts of a list of correlations, from the left.
  abbrev pub total_boost : Float → List (Correlation floats) → Float
  total_boost total [] = total
  total_boost total (corr ∷ rest) = total_boost (floats.add total corr.boost) rest

  add_boosts-triggered :
      (ids : List String) (total : Float) (correlations : List (Correlation floats))
      → add_boosts floats (build_active_set ids) total correlations
        ≡ total_boost total (keep (λ corr. triggered ids corr.signals) correlations)
  unfolding add_boosts
  add_boosts-triggered ids total [] = refl
  add_boosts-triggered ids total (corr ∷ rest) = elim (Bool-cases (triggered ids corr.signals)) [
    | inl yes' ↦
        rw (all_signals_active-triggered ids corr.signals, yes')
          (add_boosts-triggered ids (floats.add total corr.boost) rest)
    | inr no' ↦
        rw (all_signals_active-triggered ids corr.signals, no')
          (add_boosts-triggered ids total rest)
  ]

  -- On the active set built from the ids of the triggered rules, the boost is the sum, from the left
  -- and from zero, of the boosts of exactly those correlations of which every signal is a triggered
  -- id.
  evaluate_correlations-triggered :
      (ids : List String) (correlations : List (Correlation floats))
      → evaluate_correlations floats (build_active_set ids) correlations
        ≡ total_boost floats.zero (keep (λ corr. triggered ids corr.signals) correlations)
  unfolding evaluate_correlations
  evaluate_correlations-triggered ids correlations =
      add_boosts-triggered ids floats.zero correlations
