-- ===== src/Analyzer/Engine/Soundness.antt =====
-- What makes an event sound: the hit of a rule, its confidence and its thresholds.
use self_healing_kubernetes.Base.{
  ℕ, suc, ◌≡◌, refl, ap, ◌∙◌, ◌⊎◌, inl, inr, String, true, false, ◌&&◌, ◌||◌, some, List, [], ◌∷◌,
  arith, length, ltb, All, All-imp, get_elem?, Bool-cases, Option-cases, ◌==◌, string_Eq, Keyed,
  Time,
}
use self_healing_kubernetes.Analyzer.Window as Window
use self_healing_kubernetes.Analyzer.Window.{Floats, WindowKey}
use self_healing_kubernetes.Analyzer.Cooldown as Cooldown
use self_healing_kubernetes.Analyzer.Correlate.{ActiveSignalSet}
use self_healing_kubernetes.Analyzer.Rules.{Rule, breaches}
use self_healing_kubernetes.Analyzer.Confidence.{Thresholds, decide}
use self_healing_kubernetes.Analyzer.Confidence.Range.{
  UnitOrder, InUnit, score-InUnit, clamp-InUnit,
}
use self_healing_kubernetes.Analyzer.Engine.{
  cooldown_policy_for, is_suppress, is_log_only, AnomalyEvent, SignalEvent, Engine, Services,
  RuleHit, hits_of, score_of, event_of, emit, handle_hit,
}

module _ (floats : Floats) {D : Type 0} (services : Services floats D) where
  open floats use {Float}

  -- A hit passes by, or its confidence and its cooldown let its event out.
  pub handle_hit-cases :
      (sig : SignalEvent floats) (active : ActiveSignalSet) (triggered : List String)
      (corr_boost : Float) (now : Time) (hit : RuleHit floats) (e : Engine floats)
      → let confidence = score_of floats services e active triggered corr_boost hit in
        let action = hit.rule.suggested_action in
        (handle_hit floats services sig active triggered corr_boost now hit e ≡ e)
        ⊎ ((is_suppress (decide floats confidence e.thresholds) ≡ false)
            × (Cooldown.allow e.cooldowns sig.pod action (cooldown_policy_for action) now ≡ true)
            × (handle_hit floats services sig active triggered corr_boost now hit e
                ≡ emit floats services
                    (event_of floats services e sig active now confidence hit)
                    now
                    e))
  unfolding handle_hit
  handle_hit-cases sig active triggered corr_boost now hit e = ground arith

  -- The hit of a rule of the list, for the metric of the sample, whose value breaches the rule.
  abbrev pub IsHit : List (Rule floats) → SignalEvent floats → RuleHit floats → Type 0
  IsHit rules sig hit =
      ((i : ℕ) × (get_elem? rules i ≡ some hit.rule))
      × (hit.rule.metric ≡ sig.metric)
      × (breaches floats hit.value hit.rule.condition ≡ true)

  -- What makes an event sound for a sample, under some rules and thresholds.
  pub record IsSound (rules : List (Rule floats)) (t : Thresholds floats) (sig : SignalEvent floats)
      (out : String × AnomalyEvent floats) : Type 0 where
    pub to_namespace : out.0 ≡ sig.namespace
    pub of_pod : out.1.pod ≡ sig.pod
    pub in_unit : InUnit floats out.1.confidence
    pub not_suppressed : floats.greater t.suppress_below out.1.confidence ≡ false
    pub dry_run_eq : out.1.dry_run ≡ floats.greater t.action_from out.1.confidence
    pub by_rule :
        (hit : RuleHit floats) × IsHit rules sig hit
        × (out.1.id ≡ hit.rule.id)
        × (out.1.suggested_action ≡ hit.rule.suggested_action)
        × (out.1.metric_value ≡ hit.value)

  score_of-InUnit :
      (order : UnitOrder floats) (e : Engine floats) (active : ActiveSignalSet)
      (triggered : List String) (corr_boost : Float) (hit : RuleHit floats)
      → InUnit floats (score_of floats services e active triggered corr_boost hit)
  unfolding score_of
  score_of-InUnit order e active triggered corr_boost hit =
      elim (Bool-cases (floats.greater corr_boost floats.zero && ltb 1 (length triggered))) [
        | inl many ↦ rw many (clamp-InUnit floats order _)
        | inr few ↦ rw few (score-InUnit floats order _)
      ]

  decide-lem :
      (confidence : Float) (t : Thresholds floats)
      → is_suppress (decide floats confidence t) ≡ false
      → (floats.greater t.suppress_below confidence ≡ false)
        × (is_log_only (decide floats confidence t) ≡ floats.greater t.action_from confidence)
  unfolding decide
  decide-lem confidence t h = ground arith

  -- A rule adds nothing, or its hit with the average of the window.
  hits_of-cases :
      (rule : Rule floats) (rules : List (Rule floats)) (sig : SignalEvent floats)
      (windows : Keyed WindowKey (Window.Window floats))
      → let rest = hits_of floats services rules sig windows in
        (hits_of floats services (rule ∷ rules) sig windows ≡ rest)
        ⊎ ((value : Float) × (hits_of floats services (rule ∷ rules) sig windows
              ≡ record { rule = rule; value = value } ∷ rest)
            × ((rule.metric == sig.metric) ≡ true)
            × (breaches floats value rule.condition ≡ true))
  unfolding hits_of
  hits_of-cases rule rules sig windows =
      elim (Option-cases (Window.get floats windows sig.pod sig.metric)) [
        | inl absent ↦ inl (ground (arith, absent))
        | inr (w, found) ↦
            elim (Bool-cases (
              rule.metric == sig.metric
              && breaches floats (Window.average floats w) rule.condition)) [
                | inl hit ↦ inr (
                  Window.average floats w,
                  ground (arith, found, hit),
                  ground (arith, hit),
                  ground (arith, hit),
                )
                | inr miss ↦ inl (ground (arith, found, miss))
              ]
      ]

  IsHit-cons :
      (rule : Rule floats) (rules : List (Rule floats)) (sig : SignalEvent floats)
      (hits : List (RuleHit floats))
      → All (IsHit rules sig) hits
      → All (IsHit (rule ∷ rules) sig) hits
  IsHit-cons rule rules sig hits =
      All-imp (IsHit rules sig) (IsHit (rule ∷ rules) sig) hits
        λ hit h. ((suc h.0.0, h.0.1), h.1, h.2)

  pub hits_of-IsHit :
      (rules : List (Rule floats)) (sig : SignalEvent floats)
      (windows : Keyed WindowKey (Window.Window floats))
      → All (IsHit rules sig) (hits_of floats services rules sig windows)
  hits_of-IsHit [] sig windows = unfold hits_of in tt
  hits_of-IsHit (rule ∷ rules) sig windows =
      let rest =
        IsHit-cons rule rules sig (hits_of floats services rules sig windows)
          (hits_of-IsHit rules sig windows) in
      elim (hits_of-cases rule rules sig windows) [
        | inl same ↦ rw same rest
        | inr (value, more, metric, breached) ↦
            rw more
              (((0, refl), (string_Eq.equal_iff rule.metric sig.metric).0 metric, breached), rest)
      ]

  -- The event that a hit lets out is sound.
  pub event_of-IsSound :
      (order : UnitOrder floats) (rules : List (Rule floats)) (sig : SignalEvent floats)
      (active : ActiveSignalSet) (triggered : List String) (corr_boost : Float) (now : Time)
      (hit : RuleHit floats) (e : Engine floats)
      → IsHit rules sig hit
      → e.dry_run ≡ false
      → let confidence = score_of floats services e active triggered corr_boost hit in
        is_suppress (decide floats confidence e.thresholds) ≡ false
        → IsSound rules e.thresholds sig
            (sig.namespace, event_of floats services e sig active now confidence hit)
  event_of-IsSound order rules sig active triggered corr_boost now hit e h live pass =
      let confidence = score_of floats services e active triggered corr_boost hit in
      let (above, dry) = decide-lem confidence e.thresholds pass in
      record {
        to_namespace = refl;
        of_pod = refl;
        in_unit = score_of-InUnit order e active triggered corr_boost hit;
        not_suppressed = above;
        dry_run_eq = ap (λ b. b || is_log_only (decide floats confidence e.thresholds)) live ∙ dry;
        by_rule = (hit, h, refl, refl, refl);
      }
