-- ===== src/Controller/Tests.antt =====
-- The escalation, the actions and the observer on a small cluster.
use self_healing_kubernetes.Base.{
  ℕ, ◌*◌, ◌≡◌, refl, true, false, List, [], ◌∷◌, arith, lookup, insert, Distinct, string_Eq, second,
  minute, hour,
}
use self_healing_kubernetes.Controller.Types.{ActionEvent, ActionType, EscalationState}
use self_healing_kubernetes.Controller.Kubernetes.{Container}
use self_healing_kubernetes.Controller.Escalation as Escalation
use self_healing_kubernetes.Controller.Escalation.{key_Eq}
use self_healing_kubernetes.Controller.Escalation.Ladder as Ladder
use self_healing_kubernetes.Controller.Escalation.Runs as Runs
use self_healing_kubernetes.Controller.Actions as Actions
use self_healing_kubernetes.Controller.Observer as Observer
use self_healing_kubernetes.Controller.Observer.Watching as Watching
use self_healing_kubernetes.Controller.Observer.Publishing as Publishing
use self_healing_kubernetes.Controller.Samples.{api, web}

abbrev other : Escalation.EscalationKey
other = record { pod = "api"; namespace = "shop"; anomaly_type = "oom" }

-- The key that a resolved cordon of the node `n1` marks.
abbrev web_of_node : Escalation.EscalationKey
web_of_node = record { pod = "n1"; namespace = "shop"; anomaly_type = "oom" }

abbrev called : Escalation.EscalationEntry
called = record {
  state = EscalationState.manual;
  action = ActionType.manual;
  attempt = 0;
  last_action = minute;
  updated_at = minute;
}

-- A context that needs a human.
abbrev handed_over : Escalation.EscalationManager
handed_over = (web, called) ∷ []

handed_over-IsValid : Runs.IsValid handed_over
unfolding insert Distinct lookup
handed_over-IsValid = record {
  fits = Ladder.AllOnLadder-insert [] web called (refl, refl) Ladder.AllOnLadder-empty;
  distinct = (refl, tt);
}

empty-IsValid : Runs.IsValid []
unfolding Distinct
empty-IsValid = record { fits = Ladder.AllOnLadder-empty; distinct = tt }

abbrev escalation_calls : List Runs.Call
escalation_calls =
    Runs.next web minute
    ∷ Runs.next other minute
    ∷ Runs.next web (2 * minute)
    ∷ Runs.purges (3 * minute) hour
    ∷ Runs.resolve other (4 * minute)
    ∷ []

run-climbs_example :
    Ladder.rung_of (Runs.run [] escalation_calls) web
    ≡ Runs.climb web (Ladder.rung_of [] web) escalation_calls
run-climbs_example = Runs.run-climbs [] escalation_calls web empty-IsValid

manual_absorbs_example :
    (Escalation.is_manual (Runs.run handed_over escalation_calls) web ≡ true)
    × (Escalation.next_action (Runs.run handed_over escalation_calls) web hour ≡ (
      Runs.run handed_over escalation_calls,
      record { action = ActionType.manual; attempt = 0; failed = true },
    ))
manual_absorbs_example =
    Runs.manual_absorbs handed_over escalation_calls web hour handed_over-IsValid
      (unfold Escalation.is_manual Escalation.current_state lookup in refl) (refl, tt)

abbrev target : Actions.Target
target = record {
  pod = "web";
  namespace = "shop";
  node = "n1";
  deployment = "web";
  labels = ("app", "web") ∷ [];
}

abbrev small : Container
small = record { name = "main"; memory_limit = 1_000_001 }

abbrev restart_event : ActionEvent Unit
restart_event = record {
  action_id = "a1";
  anomaly_id = "x1";
  action = "restart_pod";
  target_kind = "Pod";
  target_name = "web";
  target_namespace = "shop";
  target_node = "n1";
  reason = "oom";
  confidence = tt;
  dry_run = false;
  attempt = 1;
  timestamp = 0;
}

-- Polls five seconds apart on a pod that runs.
abbrev polls : ℕ → Observer.Poll Unit api
polls k = record {
  tested = k * (5 * second);
  cancelled = false;
  cluster = 0;
  returned = k * (5 * second);
}

watch-Ends_example :
    Watching.Ends Unit api restart_event 0
      (60 * second)
      polls
      (Observer.watch Unit api 13 restart_event 0 (60 * second) polls 0)
watch-Ends_example =
    Watching.watch-Ends Unit api restart_event 0 (60 * second) polls 12 (λ k. omega arith)
      (omega arith)

abbrev health : Observer.Health
health = record {
  breaker = record {
    history = [];
    tripped_at = 0;
    is_open = false;
    failure_pct = 50;
    eval_window = 5 * minute;
    pause_duration = 10 * minute;
    enabled = true;
  };
  escalation = handed_over;
}

abbrev readings : Observer.Clocks Unit api
readings = record { recorded = hour; tripped = hour; observed = hour; stamped = 0 }
