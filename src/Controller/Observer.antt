-- ===== src/Controller/Observer.antt =====
-- internal/controller/observer.go: the polling loop after an action, and what its outcome changes.
-- The k-th round of the loop sees the k-th of a stream of polls. The loop runs on fuel.
pub mod Watching
pub mod Publishing
use self_healing_kubernetes.Base.{
  ℕ, zero, suc, ◌+◌, ◌-◌, ◌*◌, ◌/◌, String, Bool, true, false, ◌&&◌, Option, none, some, any, ltb,
  ◌==◌, string_Eq, if◌then◌else◌, Time, Duration, second,
}
use self_healing_kubernetes.Controller.Kubernetes.{Api, Condition, Pod}
use self_healing_kubernetes.Controller.Types.{ActionEvent, OutcomeEvent}
use self_healing_kubernetes.Controller.Escalation.{EscalationManager, mark_resolved}
use self_healing_kubernetes.Guardrails.Breaker.{CircuitBreaker, record_success, record_failure}

abbrev pub observer_poll_interval : Duration
observer_poll_interval = 5 * second

-- What the observer changes.
pub record Health : Type 0 where
  pub breaker : CircuitBreaker
  pub escalation : EscalationManager

module _ (F : Type 0) (api : Api) where
  open api use {Cluster}

  -- One round: the loop's clock reading, whether the context is cancelled in the wait, the cluster
  -- that the check sees and the clock at which the round could return.
  pub record Poll : Type 0 where
    pub tested : Time
    pub cancelled : Bool
    pub cluster : Cluster
    pub returned : Time

  abbrev pub is_ready : Condition → Bool
  is_ready cond = cond.kind == "Ready" && cond.status == "True"

  unfoldable pub check_pod_ready : Cluster → (name namespace : String) → Bool
  check_pod_ready c name namespace = elim (api.get_pod c namespace name) [
    | none ↦ false
    | some pod ↦ if pod.phase == "Running" then any is_ready pod.conditions else false
  ]

  -- `none` is the error that the loop logs before it goes on.
  unfoldable pub check_node_cordoned : Cluster → String → Option Bool
  check_node_cordoned c name = elim (api.get_node c name) [
    | none ↦ none
    | some node ↦ some node.unschedulable
  ]

  -- The check of one round; an error counts as not recovered.
  unfoldable pub recovered : ActionEvent F → Cluster → Bool
  unfolding check_pod_ready check_node_cordoned
  recovered action c =
      if action.action == "cordon_node"
      then elim (check_node_cordoned c action.target_node) [ none ↦ false | some ok ↦ ok ]
      else check_pod_ready c action.target_name action.target_namespace

  abbrev pub milliseconds : Time → Time → ℕ
  milliseconds start now = (now - start) / 1_000_000

  -- Whether the target recovered, and after how many milliseconds; `none` if the fuel runs out.
  unfoldable pub watch :
      (fuel : ℕ) → ActionEvent F → (start deadline : Time) → (ℕ → Poll) → ℕ → Option (Bool × ℕ)
  watch zero action start deadline polls i = none
  watch (suc fuel) action start deadline polls i =
      let rest = watch fuel action start deadline polls (suc i) in
      let poll = polls i in
      if ltb poll.tested deadline
      then (if poll.cancelled
          then some (false, milliseconds start poll.returned)
          else if recovered action poll.cluster
          then some (true, milliseconds start poll.returned)
          else rest)
      else some (false, milliseconds start poll.returned)

  -- The clock readings of `publish`.
  pub record Clocks : Type 0 where
    pub recorded : Time
    pub tripped : Time
    pub observed : Time
    pub stamped : ℕ

  -- The outcome that is published, and what is recorded of it.
  unfoldable pub publish :
      Health → ActionEvent F → String → (resolved : Bool) → ℕ → Clocks → Health × OutcomeEvent
  publish h action anomaly_type resolved resolution_ms t = (
    if resolved
        then record {
          breaker = record_success t.recorded h.breaker;
          escalation =
              mark_resolved h.escalation
                (record {
                  pod = action.target_name;
                  namespace = action.target_namespace;
                  anomaly_type = anomaly_type;
                })
                t.observed;
        }
        else record h { breaker = record_failure t.recorded t.tripped h.breaker },
    record {
      action_id = action.action_id;
      anomaly_id = action.anomaly_id;
      resolved = resolved;
      resolution_type = if resolved then "immediate" else "failed";
      resolution_ms = resolution_ms;
      observed_at = t.observed;
      timestamp = t.stamped;
    },
  )
