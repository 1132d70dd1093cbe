-- ===== src/Controller/Reconciler.antt =====
-- internal/controller/reconciler.go: from one anomaly through the gates to one action. Logging and
-- the metrics are left out; a `fmt.Errorf` is a constructor. The random id of the action, the clock
-- readings and whether the event marshals are inputs; what is published, audited and watched is
-- kept in lists, newest first.
pub mod Gates
pub mod Escalating
pub mod DryRun
pub mod Spacing
mod Tests
use self_healing_kubernetes.Base.{
  ℕ, ◌*◌, String, Bool, true, false, not, ◌&&◌, ◌||◌, Option, none, some, List, [], ◌∷◌, ltb, ◌==◌,
  string_Eq, if◌then◌else◌, Keyed, Time, Duration, second,
}
use self_healing_kubernetes.Guardrails.Policy.{
  Policy, is_protected_namespace, is_protected_pod, requires_confirmation, cordon_min_pod_count,
  observation_window, max_memory_increase_pct, is_dry_run,
}
use self_healing_kubernetes.Guardrails.RateLimit.{GlobalRateLimiter, new_global_rate_limiter}
use self_healing_kubernetes.Guardrails.RateLimit.{allow as rate_allow}
use self_healing_kubernetes.Guardrails.Cooldown.{
  CooldownKey, CooldownStore, new_cooldown_store, allow as cooldown_allow,
}
use self_healing_kubernetes.Guardrails.Breaker.{
  CircuitBreaker, new_circuit_breaker, record_failure, allow as breaker_allow,
}
use self_healing_kubernetes.Controller.Types.{
  AnomalyEvent, ActionEvent, ActionType, cordon_node, action_name, action_Eq,
}
use self_healing_kubernetes.Controller.Escalation.{
  EscalationKey, EscalationManager, Next, next_action, mark_resolved, is_manual,
}
use self_healing_kubernetes.Controller.Kubernetes.{Api}
use self_healing_kubernetes.Controller.Actions.{
  Target, ActionError, Executor, new_dispatcher, execute, affected_pod_count,
}

-- What the reconciler calls and does not implement.
pub record External : Type 1 where
  pub Float : Type 0
  pub api : Api
  pub parse_duration : String → Option Duration
  -- Whether `json.Marshal` accepts the event (it refuses a confidence that is not a number).
  pub marshals : ActionEvent Float → Bool

-- The clock readings of one pass, in the order of the gates.
pub record Clocks : Type 0 where
  pub breaker : Time
  pub rate_tested : Time
  pub rate_recorded : Time
  pub escalation : Time
  pub confirmation : Time
  pub cooldown : Time
  pub failure_recorded : Time
  pub failure_tripped : Time
  pub stamped : ℕ

pub data Skip : Type 0 where
  protected_namespace protected_label breaker_open rate_limited in_manual : Skip
  needs_confirmation cooling_down too_few_pods : Skip

-- The error that `reconcile` returns; `dispatched` carries that of the action.
pub data Verdict : Type 0 where
  skipped : Skip → Verdict
  dispatched : Option ActionError → Verdict

module _ (x : External) where
  open x use {Float, api, parse_duration, marshals}
  open api use {Cluster}

  pub record AuditEntry : Type 0 where
    pub action_id : String
    pub anomaly_id : String
    pub action : String
    pub target : String
    pub namespace : String
    pub reason : String
    pub confidence : Float
    pub dry_run : Bool

  -- The arguments of `WatchAsync`.
  pub record Watch : Type 0 where
    pub event : ActionEvent Float
    pub anomaly_type : String
    pub window : Duration

  pub record Reconciler : Type 0 where
    pub cluster : Cluster
    pub policy : Policy
    pub rate_limiter : GlobalRateLimiter
    pub cooldowns : CooldownStore
    pub breaker : CircuitBreaker
    pub escalation : EscalationManager
    pub dispatcher : Keyed String Executor
    pub dry_run : Bool
    pub published : List (ActionEvent Float)
    pub audit : List AuditEntry
    pub watched : List Watch

  unfoldable pub new_reconciler : Cluster → Policy → Bool → Reconciler
  new_reconciler cluster policy dry_run = record {
    cluster = cluster;
    policy = policy;
    rate_limiter = new_global_rate_limiter (10 * second);
    cooldowns = new_cooldown_store policy;
    breaker = new_circuit_breaker parse_duration policy;
    escalation = [];
    dispatcher = new_dispatcher api (max_memory_increase_pct policy);
    dry_run = dry_run || is_dry_run policy;
    published = [];
    audit = [];
    watched = [];
  }

  abbrev pub context : AnomalyEvent Float → EscalationKey
  context a = record { pod = a.affected_pod; namespace = a.namespace; anomaly_type = a.kind }

  -- The labels of the pod; a nil map where it cannot be read.
  unfoldable pub labels_of : Cluster → AnomalyEvent Float → Keyed String String
  labels_of c a = elim (api.get_pod c a.namespace a.affected_pod) [
    | none ↦ []
    | some pod ↦ pod.labels
  ]

  abbrev pub event_of : Reconciler → AnomalyEvent Float → Next → String → Clocks → ActionEvent Float
  event_of r a next id t =
      let on_node = next.action == cordon_node in
      record {
        action_id = id;
        anomaly_id = a.anomaly_id;
        action = action_name next.action;
        target_kind = if on_node then "Node" else "Pod";
        target_name = if on_node then a.affected_node else a.affected_pod;
        target_namespace = a.namespace;
        target_node = a.affected_node;
        reason = a.suggested_cause;
        confidence = a.confidence;
        dry_run = r.dry_run;
        attempt = next.attempt;
        timestamp = t.stamped;
      }

  abbrev pub audit_of : Reconciler → AnomalyEvent Float → Next → String → AuditEntry
  audit_of r a next id = record {
    action_id = id;
    anomaly_id = a.anomaly_id;
    action = action_name next.action;
    target = a.affected_pod;
    namespace = a.namespace;
    reason = a.suggested_cause;
    confidence = a.confidence;
    dry_run = r.dry_run;
  }

  -- The bookkeeping after the action: breaker or publication, audit, observer.
  unfoldable pub conclude :
      Reconciler → AnomalyEvent Float → Next → String → Clocks → Option ActionError → Reconciler
  conclude r a next id t (some e) = record r {
    breaker = record_failure t.failure_recorded t.failure_tripped r.breaker;
    audit = audit_of r a next id ∷ r.audit;
  }
  conclude r a next id t none = record r {
    published =
        if marshals (event_of r a next id t)
        then event_of r a next id t ∷ r.published
        else r.published;
    audit = audit_of r a next id ∷ r.audit;
    watched =
        if r.dry_run
        then r.watched
        else record {
          event = event_of r a next id t;
          anomaly_type = a.kind;
          window = observation_window parse_duration r.policy (action_name next.action);
        }
          ∷ r.watched;
  }

  abbrev pub target_of : AnomalyEvent Float → Keyed String String → Target
  target_of a labels = record {
    pod = a.affected_pod;
    namespace = a.namespace;
    node = a.affected_node;
    deployment = a.deployment;
    labels = labels;
  }

  unfoldable pub dispatch :
      Reconciler
      → AnomalyEvent Float
      → Next
      → Keyed String String
      → String
      → Clocks
      → Reconciler × Verdict
  dispatch r a next labels id t =
      let (e, c) =
        execute api r.dispatcher (action_name next.action) r.cluster (target_of a labels)
          r.dry_run in
      (conclude (record r { cluster = c }) a next id t e, dispatched e)

  -- The count of gate 8; an error leaves it 0.
  unfoldable pub affected : Cluster → AnomalyEvent Float → ℕ
  affected c a = elim (affected_pod_count api c a.affected_node a.namespace) [
    | none ↦ 0
    | some n ↦ n
  ]

  abbrev pub cooldown_key : AnomalyEvent Float → Next → CooldownKey
  cooldown_key a next = record {
    pod = a.affected_pod;
    namespace = a.namespace;
    action = action_name next.action;
  }

  -- Gates 6 to 8, on the action that the escalation chose.
  unfoldable pub clear :
      Reconciler
      → AnomalyEvent Float
      → Next
      → Keyed String String
      → String
      → Clocks
      → Reconciler × Verdict
  clear r a next labels id t =
      let name = action_name next.action in
      if requires_confirmation r.policy name
      then (
        record r { escalation = mark_resolved r.escalation (context a) t.confirmation },
        skipped needs_confirmation,
      )
      else (let (cool, cooldowns') =
            cooldown_allow parse_duration r.cooldowns (cooldown_key a next) t.cooldown in
          let r' = record r { cooldowns = cooldowns' } in
          if not cool
          then (r', skipped cooling_down)
          else if next.action == cordon_node
              && ltb (affected r'.cluster a) (cordon_min_pod_count r'.policy)
          then (r', skipped too_few_pods)
          else dispatch r' a next labels id t)

  -- Gate 5: the escalation.
  unfoldable pub choose :
      Reconciler → AnomalyEvent Float → Keyed String String → String → Clocks → Reconciler × Verdict
  choose r a labels id t =
      if is_manual r.escalation (context a)
      then (r, skipped in_manual)
      else (let (escalation', next) = next_action r.escalation (context a) t.escalation in
          let r' = record r { escalation = escalation' } in
          if next.failed then (r', skipped in_manual) else clear r' a next labels id t)

  -- Gates 3 and 4: the breaker and the rate limiter.
  unfoldable pub throttle :
      Reconciler → AnomalyEvent Float → Keyed String String → String → Clocks → Reconciler × Verdict
  throttle r a labels id t =
      let (closed, breaker') = breaker_allow t.breaker r.breaker in
      let r' = record r { breaker = breaker' } in
      if not closed
      then (r', skipped breaker_open)
      else (let (granted, limiter') = rate_allow t.rate_tested t.rate_recorded r'.rate_limiter in
          let r'' = record r' { rate_limiter = limiter' } in
          if not granted then (r'', skipped rate_limited) else choose r'' a labels id t)

  unfoldable pub reconcile :
      Reconciler → AnomalyEvent Float → String → Clocks → Reconciler × Verdict
  reconcile r a id t =
      if is_protected_namespace r.policy a.namespace
      then (r, skipped protected_namespace)
      else (let labels = labels_of r.cluster a in
          if is_protected_pod r.policy labels
          then (r, skipped protected_label)
          else throttle r a labels id t)

  -- `handleAnomaly`: `none` is a message that does not decode. Every message is acknowledged.
  unfoldable pub handle_anomaly :
      Reconciler → Option (AnomalyEvent Float) → String → Clocks → Reconciler × Bool
  handle_anomaly r none id t = (r, true)
  handle_anomaly r (some a) id t = ((reconcile r a id t).0, true)

  -- A message, with the id that the pass draws and its clock readings.
  abbrev pub Message : Type 0
  Message = Option (AnomalyEvent Float) × String × Clocks

  -- The messages one after another.
  unfoldable pub handle_all : Reconciler → List Message → Reconciler
  handle_all r [] = r
  handle_all r ((a, id, t) ∷ rest) = handle_all (handle_anomaly r a id t).0 rest
