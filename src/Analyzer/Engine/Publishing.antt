-- ===== src/Analyzer/Engine/Publishing.antt =====
-- What the engine publishes for a sample: only events that its rules, thresholds and cooldowns
-- bear out.
use self_healing_kubernetes.Base.{
  ◌≡◌, refl, sym, ◌∙◌, ◌⊎◌, inl, inr, String, true, false, not, ◌&&◌, some, List, [], ◌∷◌, ◌++◌,
  arith, All, All-append, Bool-cases, string_Eq, if◌then◌else◌, Time, is_zero,
}
use mathlib.Core.List.{append-nil, append_assoc}
use self_healing_kubernetes.Analyzer.Window.{Floats}
use self_healing_kubernetes.Analyzer.Correlate.{
  ActiveSignalSet, build_active_set, evaluate_correlations,
}
use self_healing_kubernetes.Analyzer.Rules.{Rule}
use self_healing_kubernetes.Analyzer.Confidence.Range.{UnitOrder}
use self_healing_kubernetes.Analyzer.Engine.{
  unix_milli, AnomalyEvent, SignalEvent, Engine, Services, RuleHit, record_all, hits_of, score_of,
  event_of, emit, handle_hit, handle_hits, triggered_ids, evaluate, process_signal,
}
use self_healing_kubernetes.Analyzer.Engine.Soundness.{
  handle_hit-cases, IsHit, hits_of-IsHit, IsSound, event_of-IsSound,
}

module _ (floats : Floats) {D : Type 0} (services : Services floats D) where
  open floats use {Float}

  -- What the code adds to the calls of the publisher, with the settings that it keeps.
  record Adds (rules : List (Rule floats)) (sig : SignalEvent floats) (e e' : Engine floats)
      : Type 0 where
    added : List (String × AnomalyEvent floats)
    published_eq : e'.published ≡ e.published ++ added
    sound : All (IsSound floats services rules e.thresholds sig) added
    silent : (e.dry_run ≡ true) ⊎ (e.has_publisher ≡ false) → added ≡ []
    thresholds_eq : e'.thresholds ≡ e.thresholds
    dry_run_eq : e'.dry_run ≡ e.dry_run
    publisher_eq : e'.has_publisher ≡ e.has_publisher

  Adds-none :
      (rules : List (Rule floats)) (sig : SignalEvent floats) (e : Engine floats)
      → Adds rules sig e e
  Adds-none rules sig e = record {
    added = [];
    published_eq = sym (append-nil e.published);
    sound = tt;
    silent = λ h. refl;
    thresholds_eq = refl;
    dry_run_eq = refl;
    publisher_eq = refl;
  }

  Adds-emit :
      (rules : List (Rule floats)) (sig : SignalEvent floats) (event : AnomalyEvent floats)
      (now : Time) (e : Engine floats)
      → (e.dry_run ≡ false
          → IsSound floats services rules e.thresholds sig (event.namespace, event))
      → Adds rules sig e (emit floats services event now e)
  unfolding emit
  Adds-emit rules sig event now e sound =
      elim (Bool-cases ((e.has_publisher && not e.dry_run) && services.marshals event)) [
        | inl out ↦ rw out (record {
          added = (event.namespace, event) ∷ [];
          published_eq = refl;
          sound = (sound (ground (arith, out)), tt);
          silent = λ h. ground (arith, out, h);
          thresholds_eq = refl;
          dry_run_eq = refl;
          publisher_eq = refl;
        })
        | inr quiet ↦ rw quiet (record {
          added = [];
          published_eq = sym (append-nil e.published);
          sound = tt;
          silent = λ h. refl;
          thresholds_eq = refl;
          dry_run_eq = refl;
          publisher_eq = refl;
        })
      ]

  Adds-trans :
      (rules : List (Rule floats)) (sig : SignalEvent floats) (e e' e'' : Engine floats)
      → Adds rules sig e e'
      → Adds rules sig e' e''
      → Adds rules sig e e''
  Adds-trans rules sig e e' e'' a b = record {
    added = a.added ++ b.added;
    published_eq = rw (b.published_eq, a.published_eq) (append_assoc e.published a.added b.added);
    sound =
        All-append (IsSound floats services rules e.thresholds sig) a.added b.added a.sound
          (rw a.thresholds_eq at b.sound);
    silent = λ h. ground (arith, a.silent h, b.silent, a.dry_run_eq, a.publisher_eq, h);
    thresholds_eq = b.thresholds_eq ∙ a.thresholds_eq;
    dry_run_eq = b.dry_run_eq ∙ a.dry_run_eq;
    publisher_eq = b.publisher_eq ∙ a.publisher_eq;
  }

  handle_hits-Adds :
      (order : UnitOrder floats) (rules : List (Rule floats)) (sig : SignalEvent floats)
      (active : ActiveSignalSet) (triggered : List String) (corr_boost : Float) (now : Time)
      (hits : List (RuleHit floats)) (e : Engine floats)
      → All (IsHit floats services rules sig) hits
      → Adds rules sig e (handle_hits floats services sig active triggered corr_boost now hits e)
  unfolding handle_hits
  handle_hits-Adds order rules sig active triggered corr_boost now [] e h = Adds-none rules sig e
  handle_hits-Adds order rules sig active triggered corr_boost now (hit ∷ hits) e h =
      let next = handle_hit floats services sig active triggered corr_boost now hit e in
      let first : Adds rules sig e next =
        elim (handle_hit-cases floats services sig active triggered corr_boost now hit e) [
          | inl same ↦ rw same (Adds-none rules sig e)
          | inr (pass, free, out) ↦
              let confidence = score_of floats services e active triggered corr_boost hit in
              rw out (
                Adds-emit rules sig (event_of floats services e sig active now confidence hit) now e
                  λ live.
                    event_of-IsSound floats services order rules sig active triggered corr_boost now
                      hit e h.0 live pass)
        ] in
      Adds-trans rules sig e next
        (handle_hits floats services sig active triggered corr_boost now hits next) first
        (handle_hits-Adds order rules sig active triggered corr_boost now hits next h.1)

  pub process_signal-decoded :
      (payload : D) (sig : SignalEvent floats) (received now : Time) (e : Engine floats)
      → services.decode payload ≡ some sig
      → process_signal floats services payload received now e
        ≡ some (evaluate floats services sig received now e)
  unfolding process_signal
  process_signal-decoded payload sig received now e h = ground (arith, h)

  -- Where no number is above itself and 0 is not above 1, the engine only appends to the calls of the
  -- publisher on a sample that decodes. Each event goes to the sample's namespace, is of its pod and
  -- stems from one of the engine's rules for the sample's metric, whose condition the reported value
  -- breaches; its confidence is neither below 0 nor above 1 nor below the suppression threshold, and
  -- its dry-run flag is set exactly when the confidence is below the action threshold. In dry-run
  -- mode, or without a publisher, there is none.
  pub process_signal-IsSound :
      (order : UnitOrder floats) (payload : D) (sig : SignalEvent floats) (received now : Time)
      (e : Engine floats)
      → services.decode payload ≡ some sig
      → (e' : Engine floats) × (added : List (String × AnomalyEvent floats)) × (process_signal
            floats services payload received now e
          ≡ some e')
        × (e'.published ≡ e.published ++ added)
        × All (IsSound floats services e.rules e.thresholds sig) added
        × ((added ≡ []) ⊎ ((e.dry_run ≡ false) × (e.has_publisher ≡ true)))
  unfolding evaluate
  process_signal-IsSound order payload sig received now e decoded =
      let t : Time =
        if is_zero (unix_milli sig.timestamp) then received else unix_milli sig.timestamp in
      let windows = record_all floats services e.rules sig t e.windows in
      let hits = hits_of floats services e.rules sig windows in
      let active = build_active_set (triggered_ids floats services hits) in
      let a : Adds e.rules sig (record e { windows = windows })
          (evaluate floats services sig received now e) =
        handle_hits-Adds order e.rules sig active (triggered_ids floats services hits)
          (evaluate_correlations floats active e.cfg.correlations) now hits
          (record e { windows = windows }) (hits_of-IsHit floats services e.rules sig windows) in
      (
        evaluate floats services sig received now e,
        a.added,
        process_signal-decoded payload sig received now e decoded,
        a.published_eq,
        a.sound,
        ground (arith, a.silent),
      )
