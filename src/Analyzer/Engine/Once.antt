-- ===== src/Analyzer/Engine/Once.antt =====
-- A sample leads to at most one event for each action, since the cooldown is recorded first.
use self_healing_kubernetes.Base.{
  ℕ, ◌+◌, ◌≤◌, ◌<◌, ◌≡◌, ap, inl, inr, String, true, false, some, List, [], ◌∷◌, arith, tally,
  tally-append, ◌==◌, string_Eq, if◌then◌else◌, Keyed, lookup, lookup-insert, Time, is_zero,
}
use self_healing_kubernetes.Analyzer.Window.{Floats}
use self_healing_kubernetes.Analyzer.Cooldown as Cooldown
use self_healing_kubernetes.Analyzer.Cooldown.{
  CooldownKey, CooldownEntry, CooldownPolicy, key_Eq, key_beq, default_cooldowns, permits, acted,
}
use self_healing_kubernetes.Analyzer.Correlate.{
  ActiveSignalSet, build_active_set, evaluate_correlations,
}
use self_healing_kubernetes.Analyzer.Engine.{
  cooldown_policy_for, unix_milli, AnomalyEvent, SignalEvent, Engine, Services, RuleHit, record_all,
  hits_of, score_of, event_of, emit, handle_hit, handle_hits, triggered_ids, evaluate,
  process_signal,
}
use self_healing_kubernetes.Analyzer.Engine.Soundness.{handle_hit-cases}
use self_healing_kubernetes.Analyzer.Engine.Publishing.{process_signal-decoded}

-- Every policy of the engine has a pause.
policy_positive : (action : String) → 0 < (cooldown_policy_for action).duration
unfolding cooldown_policy_for lookup
policy_positive action = ground arith

-- A recorded action is refused at the same time, and another action is answered as before.
allow-record_action :
    (c : Keyed CooldownKey CooldownEntry) (pod a b : String) (policy : CooldownPolicy) (now : Time)
    → 0 < policy.duration
    → Cooldown.allow (Cooldown.record_action c pod a now) pod b policy now
      ≡ (if a == b then false else Cooldown.allow c pod b policy now)
unfolding Cooldown.allow Cooldown.record_action permits acted
allow-record_action c pod a b policy now pos =
    let k : CooldownKey = record { pod = pod; action_type = a } in
    let j : CooldownKey = record { pod = pod; action_type = b } in
    ground (arith, lookup-insert k j (acted (lookup k c) now) c, pos, string_Eq.equal_iff pod pod)

module _ (floats : Floats) {D : Type 0} (services : Services floats D) where
  open floats use {Float}

  -- How many of the published events suggest an action.
  abbrev pub suggesting : String → List (String × AnomalyEvent floats) → ℕ
  suggesting action published = tally (λ out. out.1.suggested_action == action) published

  -- How many more the cooldown of an action admits at a time.
  abbrev admitted : Engine floats → (pod action : String) → Time → ℕ
  admitted e pod action now =
      if Cooldown.allow e.cooldowns pod action (cooldown_policy_for action) now then 1 else 0

  emit-suggesting :
      (event : AnomalyEvent floats) (action : String) (now : Time) (e : Engine floats)
      → Cooldown.allow e.cooldowns event.pod event.suggested_action
          (cooldown_policy_for event.suggested_action)
          now
        ≡ true
      → let e' = emit floats services event now e in
        suggesting action e'.published + admitted e' event.pod action now
        ≤ suggesting action e.published + admitted e event.pod action now
  unfolding emit
  emit-suggesting event action now e free = ground (
    arith,
    free,
    allow-record_action e.cooldowns event.pod event.suggested_action action
        (cooldown_policy_for action) now (policy_positive action),
    tally-append (λ out. out.1.suggested_action == action) e.published
        ((event.namespace, event) ∷ []),
    string_Eq.equal_iff event.suggested_action action,
    ap (λ a. Cooldown.allow e.cooldowns event.pod a (cooldown_policy_for a) now)
        {x = event.suggested_action} {y = action},
  )

  handle_hits-suggesting :
      (sig : SignalEvent floats) (active : ActiveSignalSet) (triggered : List String)
      (corr_boost : Float) (now : Time) (hits : List (RuleHit floats)) (action : String)
      (e : Engine floats)
      → let e' = handle_hits floats services sig active triggered corr_boost now hits e in
        suggesting action e'.published + admitted e' sig.pod action now
        ≤ suggesting action e.published + admitted e sig.pod action now
  unfolding handle_hits
  handle_hits-suggesting sig active triggered corr_boost now [] action e = omega arith
  handle_hits-suggesting sig active triggered corr_boost now (hit ∷ hits) action e =
      let next = handle_hit floats services sig active triggered corr_boost now hit e in
      let step : suggesting action next.published + admitted next sig.pod action now
          ≤ suggesting action e.published + admitted e sig.pod action now =
        elim (handle_hit-cases floats services sig active triggered corr_boost now hit e) [
          | inl same ↦ rw same (omega arith)
          | inr (pass, free, out) ↦
              let confidence = score_of floats services e active triggered corr_boost hit in
              rw out (
                emit-suggesting (event_of floats services e sig active now confidence hit) action
                  now e free)
        ] in
      omega
        (arith, step, handle_hits-suggesting sig active triggered corr_boost now hits action next)

  -- A sample that decodes adds at most one event for an action to the calls of the publisher, however
  -- many rules suggest it, and none while the cooldown of the action on the sample's pod refuses it.
  pub process_signal-once :
      (payload : D) (sig : SignalEvent floats) (received now : Time) (action : String)
      (e : Engine floats)
      → services.decode payload ≡ some sig
      → (e' : Engine floats) × (process_signal floats services payload received now e ≡ some e')
        × (suggesting action e'.published
            ≤ suggesting action e.published
              + (if Cooldown.allow e.cooldowns sig.pod action (cooldown_policy_for action) now
                  then 1
                  else 0))
  unfolding evaluate
  process_signal-once payload sig received now action e decoded =
      let t : Time =
        if is_zero (unix_milli sig.timestamp) then received else unix_milli sig.timestamp in
      let windows = record_all floats services e.rules sig t e.windows in
      let hits = hits_of floats services e.rules sig windows in
      let active = build_active_set (triggered_ids floats services hits) in
      (
        evaluate floats services sig received now e,
        process_signal-decoded floats services payload sig received now e decoded,
        omega (
          arith,
          handle_hits-suggesting sig active (triggered_ids floats services hits)
              (evaluate_correlations floats active e.cfg.correlations) now hits action
              (record e { windows = windows }),
        ),
      )
