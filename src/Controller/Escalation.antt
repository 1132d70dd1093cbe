-- ===== src/Controller/Escalation.antt =====
-- internal/controller/escalation.go: the healing state machine of one (pod, namespace, anomaly
-- type). Each function reads the clock where the code does; the log lines are left out.
pub mod Ladder
pub mod Runs
use self_healing_kubernetes.Base.{
  ℕ, suc, ◌+◌, String, ◌≡◌, ◌↔◌, Bool, true, false, ◌&&◌, not, Option, none, some, List, [], ◌∷◌,
  arith, ltb, Eq, ◌==◌, string_Eq, if◌then◌else◌, Keyed, lookup, insert, Time, Duration, stale,
}
use self_healing_kubernetes.Controller.Types.{
  ActionType, empty, restart_pod, reschedule_pod, cordon_node, action_Eq, EscalationState,
  observing, action_taken, escalating, node_suspect, resolved,
}

pub record EscalationKey : Type 0 where
  pub pod : String
  pub namespace : String
  pub anomaly_type : String

abbrev pub key_beq : EscalationKey → EscalationKey → Bool
key_beq a b = a.pod == b.pod && (a.namespace == b.namespace && a.anomaly_type == b.anomaly_type)

pub key_beq_iff : (a b : EscalationKey) → (key_beq a b ≡ true) ↔ (a ≡ b)
key_beq_iff a b = (
  ground (
    arith,
    string_Eq.equal_iff a.pod b.pod,
    string_Eq.equal_iff a.namespace b.namespace,
    string_Eq.equal_iff a.anomaly_type b.anomaly_type,
  ),
  ground (
    arith,
    string_Eq.equal_iff a.pod b.pod,
    string_Eq.equal_iff a.namespace b.namespace,
    string_Eq.equal_iff a.anomaly_type b.anomaly_type,
  ),
)

instance abbrev pub key_Eq : Eq EscalationKey
key_Eq = record { equal = key_beq; equal_iff = key_beq_iff }

pub record EscalationEntry : Type 0 where
  pub state : EscalationState
  pub action : ActionType
  pub attempt : ℕ
  pub last_action : Time
  pub updated_at : Time

abbrev pub EscalationManager : Type 0
EscalationManager = Keyed EscalationKey EscalationEntry

-- The entry that `NextAction` starts from where the map has none.
abbrev pub first_entry : Time → EscalationEntry
first_entry now = record {
  state = observing;
  action = restart_pod;
  attempt = 0;
  last_action = 0;
  updated_at = now;
}

unfoldable pub entry_of : EscalationManager → EscalationKey → Time → EscalationEntry
entry_of em key now = elim (lookup key em) [ none ↦ first_entry now | some entry ↦ entry ]

abbrev pub at_rung : EscalationState → ActionType → ℕ → EscalationEntry → EscalationEntry
at_rung state action attempt e = record e { state = state; action = action; attempt = attempt }

-- The switch on the state; `none` is the error of the MANUAL state.
unfoldable pub advance : EscalationState → EscalationEntry → Option EscalationEntry
advance observing e = some (at_rung action_taken restart_pod 1 e)
advance resolved e = some (at_rung action_taken restart_pod 1 e)
advance action_taken e = some (
    if e.action == restart_pod
    then (if ltb e.attempt 3
        then record e { attempt = e.attempt + 1 }
        else at_rung escalating reschedule_pod 1 e)
    else if e.action == reschedule_pod
    then (if ltb e.attempt 2
        then record e { attempt = e.attempt + 1 }
        else at_rung node_suspect cordon_node 1 e)
    else e)
advance escalating e = some (
    if ltb e.attempt 2
    then record e { attempt = e.attempt + 1 }
    else at_rung node_suspect cordon_node 1 e)
advance node_suspect e = some (at_rung EscalationState.manual ActionType.manual 0 e)
advance EscalationState.manual e = none

-- What `NextAction` returns: the action, the attempt, and whether its error is not nil.
pub record Next : Type 0 where
  pub action : ActionType
  pub attempt : ℕ
  pub failed : Bool

-- The end of `NextAction`: store the advanced entry, or give up.
unfoldable pub store_next :
    EscalationManager → EscalationKey → Time → Option EscalationEntry → EscalationManager × Next
store_next em key now none = (em, record { action = ActionType.manual; attempt = 0; failed = true })
store_next em key now (some next) = (
  insert key (record next { last_action = now; updated_at = now }) em,
  record { action = next.action; attempt = next.attempt; failed = false },
)

unfoldable pub next_action : EscalationManager → EscalationKey → Time → EscalationManager × Next
next_action em key now =
    let entry = entry_of em key now in store_next em key now (advance entry.state entry)

unfoldable pub mark_resolved : EscalationManager → EscalationKey → Time → EscalationManager
mark_resolved em key now =
    insert key
      (record { state = resolved; action = empty; attempt = 0; last_action = 0; updated_at = now })
      em

unfoldable pub current_state : EscalationManager → EscalationKey → EscalationState
current_state em key = elim (lookup key em) [ none ↦ observing | some entry ↦ entry.state ]

abbrev pub is_manual_state : EscalationState → Bool
is_manual_state EscalationState.manual = true
is_manual_state _ = false

abbrev pub is_resolved_state : EscalationState → Bool
is_resolved_state resolved = true
is_resolved_state _ = false

unfoldable pub is_manual : EscalationManager → EscalationKey → Bool
unfolding current_state
is_manual em key = is_manual_state (current_state em key)

abbrev pub is_purgeable : Time → Duration → EscalationEntry → Bool
is_purgeable now older_than entry =
    is_resolved_state entry.state && stale now older_than entry.updated_at

-- The entries that stay, and how many were deleted.
unfoldable pub purge : EscalationManager → Time → Duration → EscalationManager × ℕ
purge [] now older_than = ([], 0)
purge ((key, entry) ∷ em) now older_than =
    let (kept, purged) = purge em now older_than in
    if is_purgeable now older_than entry then (kept, suc purged) else ((key, entry) ∷ kept, purged)
