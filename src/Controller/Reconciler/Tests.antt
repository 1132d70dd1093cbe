-- ===== src/Controller/Reconciler/Tests.antt =====
-- The reconciler on a small cluster.
use self_healing_kubernetes.Base.{All, Time}
use self_healing_kubernetes.Base.{
  suc, ◌+◌, ◌*◌, ◌≤◌, ◌≡◌, ◌↔◌, refl, true, none, some, List, [], ◌∷◌, arith, lookup, insert,
  string_Eq, second, minute, hour,
}
use self_healing_kubernetes.Guardrails.Samples.{policy, parse_duration}
use self_healing_kubernetes.Guardrails.Policy as Policy
use self_healing_kubernetes.Guardrails.Breaker as Breaker
use self_healing_kubernetes.Guardrails.RateLimit as Rate
use self_healing_kubernetes.Guardrails.Cooldown as Cooldown
use self_healing_kubernetes.Controller.Types.{AnomalyEvent}
use self_healing_kubernetes.Controller.Escalation as Escalation
use self_healing_kubernetes.Controller.Escalation.{key_Eq}
use self_healing_kubernetes.Controller.Escalation.Ladder as Ladder
use self_healing_kubernetes.Controller.Reconciler as Reconciler
use self_healing_kubernetes.Controller.Reconciler.Gates as Gates
use self_healing_kubernetes.Controller.Reconciler.DryRun as DryRuns
use self_healing_kubernetes.Controller.Reconciler.Escalating as Escalating
use self_healing_kubernetes.Controller.Reconciler.Spacing as Spacing
use self_healing_kubernetes.Controller.Samples.{api, web}

abbrev external : Reconciler.External
external = record { Float = Unit; api = api; parse_duration = parse_duration; marshals = λ e. true }

abbrev anomaly : AnomalyEvent Unit
anomaly = record {
  anomaly_id = "x1";
  kind = "oom";
  confidence = tt;
  affected_pod = "web";
  affected_node = "n1";
  namespace = "shop";
  deployment = "web";
  signals = [];
  suggested_cause = "oom";
  suggested_action = "restart_pod";
  timestamp = 0;
  ttl_s = 0;
}

abbrev pass : Reconciler.Clocks
pass = record {
  breaker = minute;
  rate_tested = minute;
  rate_recorded = minute;
  escalation = minute;
  confirmation = minute;
  cooldown = minute;
  failure_recorded = minute;
  failure_tripped = minute;
  stamped = 0;
}

abbrev quiet : Reconciler.Reconciler external
quiet = Reconciler.new_reconciler external 0 policy true

-- A reconciler that restarted the pod a second ago.
abbrev busy : Reconciler.Reconciler external
busy = record quiet {
  cooldowns = record {
    policy = policy;
    entries =
        (
          record { pod = "web"; namespace = "shop"; action = "restart_pod" },
          record { last_action = 59 * second; history = [] },
        )
        ∷ [];
  };
}

dispatches_iff_example :
    (Gates.is_dispatched external (Reconciler.reconcile external quiet anomaly "a1" pass).1 ≡ true)
    ↔ Gates.Passes external quiet anomaly pass
dispatches_iff_example = Gates.dispatches_iff external quiet anomaly "a1" pass

busy_skips :
    (Reconciler.reconcile external busy anomaly "a1" pass).1
    ≡ Reconciler.skipped Reconciler.Skip.cooling_down
unfolding Reconciler.reconcile Reconciler.throttle Reconciler.choose Reconciler.clear
    Reconciler.new_reconciler Reconciler.labels_of Policy.is_protected_namespace
    Policy.is_protected_pod Policy.label_matches Policy.requires_confirmation Policy.cooldown_for
    Policy.parse_or Policy.max_per_hour Breaker.allow Breaker.new_circuit_breaker
    Breaker.duration_or Rate.allow Rate.new_global_rate_limiter Cooldown.allow Cooldown.entry_of
    Cooldown.blocked Cooldown.new_cooldown_store Escalation.is_manual Escalation.current_state
    Escalation.next_action Escalation.store_next Escalation.advance Escalation.entry_of lookup
    insert
busy_skips = refl

busy-AllOnLadder : Ladder.AllOnLadder busy.escalation
unfolding Reconciler.new_reconciler
busy-AllOnLadder = Ladder.AllOnLadder-empty

cooling_down-climbs_example :
    Ladder.rung_of (Reconciler.reconcile external busy anomaly "a1" pass).0.escalation web
    ≡ suc (Ladder.rung_of busy.escalation web)
cooling_down-climbs_example =
    Escalating.cooling_down-climbs external busy anomaly "a1" pass busy-AllOnLadder busy_skips

abbrev messages : List (Reconciler.Message external)
messages = (none, "a1", pass) ∷ (some anomaly, "a2", pass) ∷ []

quiet_dry_run : quiet.dry_run ≡ true
unfolding Reconciler.new_reconciler Policy.is_dry_run
quiet_dry_run = refl

dry_run_quiet_example :
    ((Reconciler.handle_all external quiet messages).cluster ≡ quiet.cluster)
    × ((Reconciler.handle_all external quiet messages).watched ≡ quiet.watched)
    × ((Reconciler.handle_all external quiet messages).dry_run ≡ true)
dry_run_quiet_example = DryRuns.dry_run_quiet external quiet messages quiet_dry_run

abbrev passes : List (Spacing.Pass external)
passes =
    (anomaly, "a1", pass)
    ∷ (anomaly, "a2", record pass { rate_tested = hour; rate_recorded = hour })
    ∷ []

-- A second after the record of the limiter.
abbrev sent : Spacing.Pass external → Time
sent (a, id, t) = t.rate_recorded + second

dispatches-SpacedWithin_example :
    All
      (λ u. quiet.rate_limiter.last_action + quiet.rate_limiter.min_interval ≤ u)
      (Spacing.dispatch_times external sent quiet passes)
    × Spacing.SpacedWithin second quiet.rate_limiter.min_interval
        (Spacing.dispatch_times external sent quiet passes)
dispatches-SpacedWithin_example =
    Spacing.dispatches-SpacedWithin external second sent quiet passes
      ((omega arith, omega arith, omega arith), ((omega arith, omega arith, omega arith), tt))
