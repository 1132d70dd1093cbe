-- ===== src/Controller/Escalation/Ladder.antt =====
-- The state machine refines a ladder of seven rungs that a context climbs one action at a time.
use mathlib.Core.Option.{some_inj}
use self_healing_kubernetes.Base.{
  ℕ, suc, ◌+◌, ◌≤◌, ◌≡◌, refl, sym, ap, ◌∙◌, subst, ◌⊎◌, inl, inr, true, false, Option, none, some,
  List, [], ◌∷◌, arith, get_elem?, ◌==◌, beq_refl, if◌then◌else◌, lookup, insert, lookup-insert,
  Bool-cases, Option-cases, Time,
}
use self_healing_kubernetes.Controller.Types.{
  ActionType, restart_pod, reschedule_pod, cordon_node, action_Eq, EscalationState, observing,
  action_taken, escalating, node_suspect, resolved,
}
use self_healing_kubernetes.Controller.Escalation.{
  EscalationKey, key_Eq, EscalationEntry, EscalationManager, first_entry, entry_of, advance, Next,
  store_next, next_action, mark_resolved,
}

-- The actions and attempts of the rungs, from the first.
abbrev pub ladder : List (ActionType × ℕ)
ladder =
    (restart_pod, 1)
    ∷ (restart_pod, 2)
    ∷ (restart_pod, 3)
    ∷ (reschedule_pod, 1)
    ∷ (reschedule_pod, 2)
    ∷ (cordon_node, 1)
    ∷ (ActionType.manual, 0)
    ∷ []

-- How many rungs a state has climbed.
abbrev pub rung : EscalationState → ℕ → ℕ
rung observing attempt = 0
rung resolved attempt = 0
rung action_taken attempt = attempt
rung escalating attempt = 3 + attempt
rung node_suspect attempt = 6
rung EscalationState.manual attempt = 7

-- The states, actions and attempts that belong together.
abbrev pub Fits : EscalationState → ActionType → ℕ → Type 0
Fits observing action attempt = Unit
Fits resolved action attempt = Unit
Fits action_taken action attempt = (action ≡ restart_pod) × (1 ≤ attempt) × (attempt ≤ 3)
Fits escalating action attempt = (action ≡ reschedule_pod) × (1 ≤ attempt) × (attempt ≤ 2)
Fits node_suspect action attempt = (action ≡ cordon_node) × (attempt ≡ 1)
Fits EscalationState.manual action attempt = (action ≡ ActionType.manual) × (attempt ≡ 0)

abbrev pub IsOnLadder : EscalationEntry → Type 0
IsOnLadder e = Fits e.state e.action e.attempt

-- One step of an entry: the next rung, or the error at the top.
abbrev Climbs : EscalationEntry → Option EscalationEntry → Type 0
Climbs e none = rung e.state e.attempt ≡ 7
Climbs e (some next) =
    IsOnLadder next
    × (get_elem? ladder (rung e.state e.attempt) ≡ some (next.action, next.attempt))
    × (rung next.state next.attempt ≡ suc (rung e.state e.attempt))

advance-Climbs :
    (s : EscalationState) (e : EscalationEntry)
    → e.state ≡ s
    → IsOnLadder e
    → Climbs e (advance s e)
unfolding advance
advance-Climbs observing e h f = ground arith
advance-Climbs resolved e h f = ground arith
advance-Climbs action_taken e h f = ground arith
advance-Climbs escalating e h f = ground arith
advance-Climbs node_suspect e h f = ground arith
advance-Climbs EscalationState.manual e h f = ground arith

-- What the rung of a context is; a context without an entry is at the foot.
unfoldable pub rung_of : EscalationManager → EscalationKey → ℕ
rung_of em key = elim (lookup key em) [ none ↦ 0 | some e ↦ rung e.state e.attempt ]

-- Every entry of the map fits the ladder.
unfoldable pub AllOnLadder : EscalationManager → Type 0
AllOnLadder em = (key : EscalationKey) (e : EscalationEntry) → lookup key em ≡ some e → IsOnLadder e

IsOnLadder-entry_of :
    (em : EscalationManager) (key : EscalationKey) (now : Time)
    → AllOnLadder em
    → IsOnLadder (entry_of em key now)
unfolding entry_of AllOnLadder
IsOnLadder-entry_of em key now all = elim (Option-cases (lookup key em)) [
  | inl e ↦ subst IsOnLadder (sym (ap fallback e)) tt
  | inr (entry, e) ↦ subst IsOnLadder (sym (ap fallback e)) (all key entry e)
]
  where
    fallback : Option EscalationEntry → EscalationEntry
    fallback o = elim o [ none ↦ first_entry now | some entry ↦ entry ]

rung-entry_of :
    (em : EscalationManager) (key : EscalationKey) (now : Time)
    → rung (entry_of em key now).state (entry_of em key now).attempt ≡ rung_of em key
unfolding entry_of rung_of
rung-entry_of em key now = ground arith

rung_of-insert :
    (em : EscalationManager) (key other : EscalationKey) (v : EscalationEntry)
    → rung_of (insert key v em) other
      ≡ (if key == other then rung v.state v.attempt else rung_of em other)
unfolding rung_of
rung_of-insert em key other v = ground (arith, lookup-insert key other v em)

pub AllOnLadder-empty : AllOnLadder []
unfolding AllOnLadder lookup
AllOnLadder-empty key e h = absurd (ground arith)

pub AllOnLadder-insert :
    (em : EscalationManager) (key : EscalationKey) (v : EscalationEntry)
    → IsOnLadder v
    → AllOnLadder em
    → AllOnLadder (insert key v em)
unfolding AllOnLadder
AllOnLadder-insert em key v f all other e h = elim (Bool-cases (key == other)) [
  | inl same ↦ subst IsOnLadder (some_inj.0 (sym (rw same at (lookup-insert key other v em)) ∙ h)) f
  | inr ne ↦ all other e (sym (rw ne at (lookup-insert key other v em)) ∙ h)
]

abbrev pub Outcome : EscalationManager → EscalationKey → EscalationManager × Next → Type 0
Outcome em key (em', next) =
    (rung_of em key ≡ 7) × (em' ≡ em) × (next.failed ≡ true)
    ⊎ (get_elem? ladder (rung_of em key) ≡ some (next.action, next.attempt))
      × (rung_of em' key ≡ suc (rung_of em key))
      × (next.failed ≡ false)

store_next-Outcome :
    (em : EscalationManager) (key : EscalationKey) (now : Time) (e : EscalationEntry)
    (o : Option EscalationEntry)
    → AllOnLadder em
    → rung e.state e.attempt ≡ rung_of em key
    → Climbs e o
    → AllOnLadder (store_next em key now o).0 × Outcome em key (store_next em key now o)
unfolding store_next
store_next-Outcome em key now e none all same top = (all, inl (sym same ∙ top, refl, refl))
store_next-Outcome em key now e (some next) all same (fits, found, up) = (
  AllOnLadder-insert em key _ fits all,
  inr (rw (← same) found, rw (rung_of-insert em key key, beq_refl key, ← same) up, refl),
)

store_next-other :
    (em : EscalationManager) (key other : EscalationKey) (now : Time) (o : Option EscalationEntry)
    → (key == other) ≡ false
    → rung_of (store_next em key now o).0 other ≡ rung_of em other
unfolding store_next
store_next-other em key other now none h = refl
store_next-other em key other now (some next) h = rw (rung_of-insert em key other, h)

-- What one call of `NextAction` does on a map that fits the ladder: below the top it returns the
-- action and the attempt of the next rung without an error and the context is one rung higher; at
-- the top it fails and changes nothing; and the map still fits the ladder.
pub next_action-climbs :
    (em : EscalationManager) (key : EscalationKey) (now : Time)
    → AllOnLadder em
    → AllOnLadder (next_action em key now).0 × Outcome em key (next_action em key now)
unfolding next_action
next_action-climbs em key now all =
    let entry = entry_of em key now in
    store_next-Outcome em key now entry (advance entry.state entry) all (rung-entry_of em key now)
      (advance-Climbs entry.state entry refl (IsOnLadder-entry_of em key now all))

pub next_action-other :
    (em : EscalationManager) (key other : EscalationKey) (now : Time)
    → (key == other) ≡ false
    → rung_of (next_action em key now).0 other ≡ rung_of em other
unfolding next_action
next_action-other em key other now =
    let entry = entry_of em key now in store_next-other em key other now (advance entry.state entry)

pub rung_of-mark_resolved :
    (em : EscalationManager) (key other : EscalationKey) (now : Time)
    → rung_of (mark_resolved em key now) other ≡ (if key == other then 0 else rung_of em other)
unfolding mark_resolved
rung_of-mark_resolved em key other now = rung_of-insert em key other _

pub AllOnLadder-mark_resolved :
    (em : EscalationManager) (key : EscalationKey) (now : Time)
    → AllOnLadder em
    → AllOnLadder (mark_resolved em key now)
unfolding mark_resolved
AllOnLadder-mark_resolved em key now all = AllOnLadder-insert em key _ tt all

rung-le :
    (e : EscalationEntry) (s : EscalationState) → e.state ≡ s → IsOnLadder e → rung s e.attempt ≤ 7
rung-le e observing h f = omega arith
rung-le e action_taken h f = ground arith
rung-le e escalating h f = ground arith
rung-le e node_suspect h f = omega arith
rung-le e EscalationState.manual h f = omega arith
rung-le e resolved h f = omega arith

pub rung_of-le :
    (em : EscalationManager) (key : EscalationKey) → AllOnLadder em → rung_of em key ≤ 7
rung_of-le em key all =
    rw (← rung-entry_of em key 0) (
      rung-le (entry_of em key 0) (entry_of em key 0).state refl (IsOnLadder-entry_of em key 0 all))
