-- ===== src/Controller/Escalation/Runs.antt =====
-- Every sequence of calls of the escalation manager, seen from one context, is a walk on the ladder.
use self_healing_kubernetes.Base.{
  ℕ, suc, min, ◌≡◌, refl, sym, ap, ◌∙◌, ◌↔◌, inl, inr, true, false, not, Option, none, some, List,
  [], ◌∷◌, arith, ◌==◌, if◌then◌else◌, beq_refl, lookup, Distinct, Distinct-insert, keep_entries,
  lookup-keep_entries, Distinct-keep_entries, passing, Bool-cases, Option-cases, Time, Duration,
}
use self_healing_kubernetes.Controller.Escalation.{
  EscalationKey, key_Eq, key_beq_iff, EscalationEntry, EscalationManager, entry_of, advance,
  store_next, next_action, mark_resolved, is_purgeable, purge, current_state, is_manual,
}
use self_healing_kubernetes.Controller.Types.{ActionType}
use self_healing_kubernetes.Controller.Escalation.Ladder.{
  rung_of, rung_of-le, AllOnLadder, next_action-climbs, next_action-other, rung_of-mark_resolved,
  AllOnLadder-mark_resolved,
}

pub data Call : Type 0 where
  next resolve : EscalationKey → Time → Call
  purges : Time → Duration → Call

-- The map that a call leaves.
unfoldable pub step : EscalationManager → Call → EscalationManager
step em (next key now) = (next_action em key now).0
step em (resolve key now) = mark_resolved em key now
step em (purges now older_than) = (purge em now older_than).0

unfoldable pub run : EscalationManager → List Call → EscalationManager
run em [] = em
run em (c ∷ calls) = run (step em c) calls

-- The specification: one context's rung, which a call for that context moves and no other call does.
unfoldable pub climb : EscalationKey → ℕ → List Call → ℕ
climb key n [] = n
climb key n (next j now ∷ calls) = climb key (if j == key then min 7 (suc n) else n) calls
climb key n (resolve j now ∷ calls) = climb key (if j == key then 0 else n) calls
climb key n (purges now older_than ∷ calls) = climb key n calls

pub record IsValid (em : EscalationManager) : Type 0 where
  pub fits : AllOnLadder em
  pub distinct : Distinct em

purge-keep_entries :
    (em : EscalationManager) (now : Time) (older_than : Duration)
    → (purge em now older_than).0
      ≡ keep_entries (λ _ entry. not (is_purgeable now older_than entry)) em
unfolding purge keep_entries
purge-keep_entries [] now older_than = refl
purge-keep_entries ((key, entry) ∷ em) now older_than =
    ground (arith, purge-keep_entries em now older_than)

lookup-purge :
    (em : EscalationManager) (now : Time) (older_than : Duration) (key : EscalationKey)
    → Distinct em
    → lookup key (purge em now older_than).0
      ≡ passing (λ _ entry. not (is_purgeable now older_than entry)) key (lookup key em)
lookup-purge em now older_than key d =
    rw (purge-keep_entries em now older_than) (lookup-keep_entries _ key em d)

rung_of-purge :
    (em : EscalationManager) (now : Time) (older_than : Duration) (key : EscalationKey)
    → Distinct em
    → rung_of (purge em now older_than).0 key ≡ rung_of em key
unfolding rung_of
rung_of-purge em now older_than key d = ground (arith, lookup-purge em now older_than key d)

purge-IsValid :
    (em : EscalationManager) (now : Time) (older_than : Duration)
    → IsValid em
    → IsValid (purge em now older_than).0
unfolding AllOnLadder
purge-IsValid em now older_than v = record {
  fits = λ key e h. v.fits key e (ground (arith, h, lookup-purge em now older_than key v.distinct));
  distinct = rw (purge-keep_entries em now older_than) (Distinct-keep_entries _ em v.distinct);
}

next_action-Distinct :
    (em : EscalationManager) (key : EscalationKey) (now : Time) (o : Option EscalationEntry)
    → Distinct em
    → Distinct (store_next em key now o).0
unfolding store_next
next_action-Distinct em key now none d = d
next_action-Distinct em key now (some e) d = Distinct-insert key _ em d

-- Every call keeps the map on the ladder, one entry to a context.
pub step-IsValid : (em : EscalationManager) (c : Call) → IsValid em → IsValid (step em c)
unfolding step next_action mark_resolved
step-IsValid em (next key now) v = record {
  fits = (next_action-climbs em key now v.fits).0;
  distinct = next_action-Distinct em key now _ v.distinct;
}
step-IsValid em (resolve key now) v = record {
  fits = AllOnLadder-mark_resolved em key now v.fits;
  distinct = Distinct-insert key _ em v.distinct;
}
step-IsValid em (purges now older_than) v = purge-IsValid em now older_than v

rung_of-next_self :
    (em : EscalationManager) (key : EscalationKey) (now : Time)
    → IsValid em
    → rung_of (next_action em key now).0 key ≡ min 7 (suc (rung_of em key))
rung_of-next_self em key now v =
    let (fits, outcome) = next_action-climbs em key now v.fits in
    elim outcome [
      | inl (top, same, failed) ↦ rw (same, top)
      | inr (found, up, fine) ↦ omega (arith, up, rung_of-le (next_action em key now).0 key fits)
    ]

rung_of-step :
    (em : EscalationManager) (c : Call) (key : EscalationKey)
    → IsValid em
    → rung_of (step em c) key ≡ climb key (rung_of em key) (c ∷ [])
unfolding step climb
rung_of-step em (next j now) key v = elim (Bool-cases (j == key)) [
  | inl same ↦ rw ((key_beq_iff j key).0 same, beq_refl key) (rung_of-next_self em key now v)
  | inr other ↦ rw other (next_action-other em j key now other)
]
rung_of-step em (resolve j now) key v = rung_of-mark_resolved em j key now
rung_of-step em (purges now older_than) key v = rung_of-purge em now older_than key v.distinct

climb-cons :
    (key : EscalationKey) (n : ℕ) (c : Call) (calls : List Call)
    → climb key n (c ∷ calls) ≡ climb key (climb key n (c ∷ [])) calls
unfolding climb
climb-cons key n (next j now) calls = refl
climb-cons key n (resolve j now) calls = refl
climb-cons key n (purges now older_than) calls = refl

-- Whatever calls are made for whatever contexts, with purges in between, a context stands on the
-- rung that the specification computes from its own calls alone: one up for each `NextAction` until
-- the top, and back to the foot for each `MarkResolved`.
pub run-climbs :
    (em : EscalationManager) (calls : List Call) (key : EscalationKey)
    → IsValid em
    → rung_of (run em calls) key ≡ climb key (rung_of em key) calls
unfolding run
run-climbs em [] key v = unfold climb in refl
run-climbs em (c ∷ calls) key v =
    run-climbs (step em c) calls key (step-IsValid em c v)
    ∙ ap (λ n. climb key n calls) (rung_of-step em c key v)
    ∙ sym (climb-cons key (rung_of em key) c calls)

pub run-IsValid : (em : EscalationManager) (calls : List Call) → IsValid em → IsValid (run em calls)
unfolding run
run-IsValid em [] v = v
run-IsValid em (c ∷ calls) v = run-IsValid (step em c) calls (step-IsValid em c v)

-- No call resolves the context.
abbrev pub Unresolved : EscalationKey → List Call → Type 0
Unresolved key [] = Unit
Unresolved key (next j now ∷ calls) = Unresolved key calls
Unresolved key (resolve j now ∷ calls) = ((j == key) ≡ false) × Unresolved key calls
Unresolved key (purges now older_than ∷ calls) = Unresolved key calls

climb_top : (key : EscalationKey) (calls : List Call) → Unresolved key calls → climb key 7 calls ≡ 7
unfolding climb
climb_top key [] h = refl
climb_top key (next j now ∷ calls) h = ground (arith, climb_top key calls h)
climb_top key (resolve j now ∷ calls) h = rw h.0 (climb_top key calls h.1)
climb_top key (purges now older_than ∷ calls) h = climb_top key calls h

is_manual_iff :
    (em : EscalationManager) (key : EscalationKey)
    → AllOnLadder em
    → (is_manual em key ≡ true) ↔ (rung_of em key ≡ 7)
unfolding is_manual current_state rung_of AllOnLadder
is_manual_iff em key all = elim (Option-cases (lookup key em)) [
  | inl e ↦ (ground arith, ground arith)
  | inr (entry, e) ↦ (ground arith, ground (arith, all key entry e))
]

next_action-manual :
    (em : EscalationManager) (key : EscalationKey) (now : Time)
    → is_manual em key ≡ true
    → next_action em key now
      ≡ (em, record { action = ActionType.manual; attempt = 0; failed = true })
unfolding is_manual current_state next_action store_next advance entry_of
next_action-manual em key now m = ground arith

-- Once a context is in MANUAL, it stays there until it is resolved, whatever calls are made
-- meanwhile, and each `NextAction` for it fails and changes nothing.
pub manual_absorbs :
    (em : EscalationManager) (calls : List Call) (key : EscalationKey) (now : Time)
    → IsValid em
    → is_manual em key ≡ true
    → Unresolved key calls
    → (is_manual (run em calls) key ≡ true)
      × (next_action (run em calls) key now
          ≡ (run em calls, record { action = ActionType.manual; attempt = 0; failed = true }))
manual_absorbs em calls key now v m h =
    let valid = run-IsValid em calls v in
    let start = (is_manual_iff em key v.fits).0 m in
    let top : rung_of (run em calls) key ≡ 7 =
      run-climbs em calls key v ∙ ap (λ n. climb key n calls) start ∙ climb_top key calls h in
    (
      (is_manual_iff (run em calls) key valid.fits).1 top,
      next_action-manual _ key now ((is_manual_iff (run em calls) key valid.fits).1 top),
    )
