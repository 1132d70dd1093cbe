-- ===== src/Guardrails/Cooldown/Replay.antt =====
-- Every schedule of calls of `Allow`, seen from one key: its grants stay apart and within the cap.
use self_healing_kubernetes.Base.{
  ◌≤◌, ◌<◌, ◌≡◌, refl, String, false, ◌&&◌, Option, List, [], ◌∷◌, ◌++◌, arith, tally, tally-keep,
  inl, inr, Bool-cases, ◌==◌, if◌then◌else◌, lookup, beq_refl, Time, Duration, hour, within, ◌∙◌,
}
use self_healing_kubernetes.Guardrails.Policy.{Policy, cooldown_for, max_per_hour}
use self_healing_kubernetes.Guardrails.Cooldown.{
  key_beq_iff, CooldownKey, CooldownEntry, CooldownStore, key_Eq, new_cooldown_store, entry_of,
  blocked, allow,
}
use self_healing_kubernetes.Guardrails.Cooldown.Invariant.{
  Spaced, entry_of-insert, pruned, Inv, Inv-later, Inv-pruned, Inv-grant,
}

-- A store beside the times at which it granted the watched key, oldest first.
pub record Logged : Type 0 where
  pub store : CooldownStore
  pub granted : List Time

-- The calls come in the order of their times, all after `start`.
abbrev pub Ascending : Time → List (Time × CooldownKey) → Type 0
Ascending start [] = Unit
Ascending start ((now, key) ∷ calls) = (start ≤ now) × Ascending now calls

-- The time of the last call.
abbrev pub clock : Time → List (Time × CooldownKey) → Time
clock start [] = start
clock start ((now, key) ∷ calls) = clock now calls

module _ (parse_duration : String → Option Duration) (key : CooldownKey) where
  unfoldable pub call : Logged → Time × CooldownKey → Logged
  call s (now, j) =
      let (granted, store') = allow parse_duration s.store j now in
      record {
        store = store';
        granted = if (j == key) && granted then s.granted ++ now ∷ [] else s.granted;
      }

  unfoldable pub replay : Logged → List (Time × CooldownKey) → Logged
  unfolding call
  replay s [] = s
  replay s (c ∷ calls) = replay (call s c) calls

  policy-call : (s : Logged) (c : Time × CooldownKey) → (call s c).store.policy ≡ s.store.policy
  unfolding call allow
  policy-call s (now, j) = ground arith

  abbrev Holds : Policy → Time → Logged → Type 0
  Holds p now s =
      (s.store.policy ≡ p) × Inv parse_duration p key.action now (entry_of s.store key) s.granted

  call_self-Holds :
      (s : Logged) (now : Time)
      → 0 < now
      → Inv parse_duration s.store.policy key.action now (entry_of s.store key) s.granted
      → Inv parse_duration s.store.policy key.action now
          (entry_of (call s (now, key)).store key)
          (call s (now, key)).granted
  unfolding call allow
  call_self-Holds s now pos i =
      let entry = entry_of s.store key in
      elim (Bool-cases (blocked parse_duration s.store.policy key.action now (pruned now entry))) [
        | inl held ↦
            rw (held, beq_refl key)
              (rw (entry_of-insert s.store key key (pruned now entry), beq_refl key)
                (Inv-pruned parse_duration s.store.policy key.action now entry s.granted i))
        | inr free ↦
            rw (free, beq_refl key)
              (rw (entry_of-insert s.store key key, beq_refl key)
                (Inv-grant parse_duration s.store.policy key.action now entry s.granted pos free i))
      ]

  call_other :
      (s : Logged) (now : Time) (j : CooldownKey)
      → (j == key) ≡ false
      → (entry_of (call s (now, j)).store key ≡ entry_of s.store key)
        × ((call s (now, j)).granted ≡ s.granted)
  unfolding call allow
  call_other s now j other =
      let entry = entry_of s.store j in
      elim (Bool-cases (blocked parse_duration s.store.policy j.action now (pruned now entry))) [
        | inl held ↦ (rw held (rw (entry_of-insert s.store j key, other)), rw (held, other))
        | inr free ↦ (rw free (rw (entry_of-insert s.store j key, other)), rw (free, other))
      ]

  call-Holds :
      (p : Policy) (s : Logged) (before now : Time) (j : CooldownKey)
      → 0 < now
      → before ≤ now
      → Holds p before s
      → Holds p now (call s (now, j))
  unfolding entry_of
  call-Holds p s before now j pos order (same, i) = (
    policy-call s (now, j) ∙ same,
    rw (← same) (elim (Bool-cases (j == key)) [
      | inl e ↦ rw ((key_beq_iff j key).0 e) (call_self-Holds s now pos (rw same later))
      | inr e ↦ rw ((call_other s now j e).0, (call_other s now j e).1, same) later
    ]),
  )
    where
      later : Inv parse_duration p key.action now (entry_of s.store key) s.granted
      later = Inv-later parse_duration p key.action before now _ s.granted order i

  replay-Holds :
      (p : Policy) (s : Logged) (before : Time) (calls : List (Time × CooldownKey))
      → 0 < before
      → Ascending before calls
      → Holds p before s
      → Holds p (clock before calls) (replay s calls)
  unfolding replay
  replay-Holds p s before [] pos h i = i
  replay-Holds p s before ((now, j) ∷ calls) pos h i =
      replay-Holds p (call s (now, j)) now calls (omega arith) h.1
        (call-Holds p s before now j (omega arith) h.0 i)

  -- The grants of the watched key, from an empty store.
  unfoldable pub grants : Policy → List (Time × CooldownKey) → List Time
  unfolding replay
  grants p calls = (replay (record { store = new_cooldown_store p; granted = [] }) calls).granted

  grants-Inv :
      (p : Policy) (start : Time) (calls : List (Time × CooldownKey))
      → 0 < start
      → Ascending start calls
      → (e : CooldownEntry) × Inv parse_duration p key.action (clock start calls) e (grants p calls)
  unfolding grants new_cooldown_store entry_of lookup
  grants-Inv p start calls pos h = (_, (replay-Holds p _ start calls pos h (first p start)).1)
    where
      first :
          (p : Policy) (start : Time)
          → Holds p start (record { store = new_cooldown_store p; granted = [] })
      first p start = (
        refl,
        record {
          kept = refl;
          capped = λ h. omega arith;
          latest = tt;
          begun = inl refl;
          spaced = tt;
          past = omega arith;
        },
      )

-- Under a clock that does not run back, with calls for any keys in between, at most the cap of an
-- action's grants on one pod fall within the hour before any moment from the last call on, where
-- the cap is not 0.
pub hourly_cap :
    (parse_duration : String → Option Duration) (key : CooldownKey) (p : Policy)
    (start moment : Time) (calls : List (Time × CooldownKey))
    → 0 < start
    → Ascending start calls
    → clock start calls ≤ moment
    → 0 < max_per_hour p key.action
    → tally (within moment hour) (grants parse_duration key p calls) ≤ max_per_hour p key.action
hourly_cap parse_duration key p start moment calls pos h order has =
    let (e, i) = grants-Inv parse_duration key p start calls pos h in
    let later = Inv-later parse_duration p key.action _ moment e _ order i in
    omega
      (arith, later.capped has, tally-keep (within moment hour) (grants parse_duration key p calls))

-- Under a clock that does not run back, each grant of an action on one pod comes at least the
-- action's cooldown after every earlier one, with calls for any keys in between.
pub cooldown_kept :
    (parse_duration : String → Option Duration) (key : CooldownKey) (p : Policy) (start : Time)
    (calls : List (Time × CooldownKey))
    → 0 < start
    → Ascending start calls
    → Spaced (cooldown_for parse_duration p key.action) (grants parse_duration key p calls)
cooldown_kept parse_duration key p start calls pos h =
    (grants-Inv parse_duration key p start calls pos h).1.spaced
