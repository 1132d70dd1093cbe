-- ===== src/Guardrails/Cooldown/Invariant.antt =====
-- The grants of one key so far, against the entry that the store holds for it.
use self_healing_kubernetes.Base.{
  ℕ, ◌+◌, ◌≤◌, ◌<◌, ◌≡◌, String, ◌⊎◌, false, Option, List, [], ◌∷◌, ◌++◌, arith, length, keep, All,
  keep-append, keep-keep, length-keep-le, length-append, inr, ◌==◌, if◌then◌else◌, insert,
  lookup-insert, Time, Duration, hour, within, within_mono, sym, ◌∙◌, ap,
}
use self_healing_kubernetes.Guardrails.Policy.{Policy, cooldown_for, max_per_hour}
use self_healing_kubernetes.Guardrails.Cooldown.{
  CooldownKey, CooldownEntry, CooldownStore, key_Eq, entry_of, blocked,
}

-- Each time is at least `d` before all that follow it.
abbrev pub Spaced : Duration → List Time → Type 0
Spaced d [] = Unit
Spaced d (t ∷ ts) = All (λ u. t + d ≤ u) ts × Spaced d ts

All-snoc : (P : Time → Type 0) (ts : List Time) (u : Time) → All P ts → P u → All P (ts ++ u ∷ [])
All-snoc P [] u h p = (p, tt)
All-snoc P (t ∷ ts) u h p = (h.0, All-snoc P ts u h.1 p)

All-weaken : (P Q : Time → Type 0) (ts : List Time) → ((t : Time) → P t → Q t) → All P ts → All Q ts
All-weaken P Q [] f h = tt
All-weaken P Q (t ∷ ts) f h = (f t h.0, All-weaken P Q ts f h.1)

Spaced-snoc :
    (d : Duration) (ts : List Time) (u : Time)
    → Spaced d ts
    → All (λ t. t + d ≤ u) ts
    → Spaced d (ts ++ u ∷ [])
Spaced-snoc d [] u s h = (tt, tt)
Spaced-snoc d (t ∷ ts) u s h = (All-snoc (λ v. t + d ≤ v) ts u s.0 h.0, Spaced-snoc d ts u s.1 h.1)

pub entry_of-insert :
    (c : CooldownStore) (j key : CooldownKey) (v : CooldownEntry)
    → entry_of (record c { entries = insert j v c.entries }) key
      ≡ (if j == key then v else entry_of c key)
unfolding entry_of
entry_of-insert c j key v = ground (arith, lookup-insert j key v c.entries)

-- The entry with the times dropped that are an hour old.
abbrev pub pruned : Time → CooldownEntry → CooldownEntry
pruned now e = record e { history = keep (within now hour) e.history }

module _ (parse_duration : String → Option Duration) (p : Policy) (action : String) where
  abbrev pub cap : ℕ
  cap = max_per_hour p action

  abbrev pub interval : Duration
  interval = cooldown_for parse_duration p action

  -- What the grants up to `now` leave in the entry.
  pub record Inv (now : Time) (e : CooldownEntry) (granted : List Time) : Type 0 where
    pub kept : keep (within now hour) e.history ≡ keep (within now hour) granted
    pub capped : 0 < cap → length (keep (within now hour) granted) ≤ cap
    pub latest : All (λ t. t ≤ e.last_action) granted
    pub begun : (granted ≡ []) ⊎ (0 < e.last_action)
    pub spaced : Spaced interval granted
    pub past : e.last_action ≤ now

  keep_later :
      (now later : Time) (ts : List Time)
      → now ≤ later
      → keep (within later hour) (keep (within now hour) ts) ≡ keep (within later hour) ts
  keep_later now later ts h =
      keep-keep (within now hour) (within later hour) ts λ t. within_mono now later hour t h

  pub Inv-later :
      (now later : Time) (e : CooldownEntry) (granted : List Time)
      → now ≤ later
      → Inv now e granted
      → Inv later e granted
  Inv-later now later e granted h i = record {
    kept =
        sym (keep_later now later e.history h)
        ∙ ap (keep (within later hour)) i.kept
        ∙ keep_later now later granted h;
    capped = λ pos. omega (
      arith,
      i.capped pos,
      length-keep-le (within later hour) (keep (within now hour) granted),
      ap length (keep_later now later granted h),
    );
    latest = i.latest;
    begun = i.begun;
    spaced = i.spaced;
    past = omega (arith, i.past);
  }

  pub Inv-pruned :
      (now : Time) (e : CooldownEntry) (granted : List Time)
      → Inv now e granted
      → Inv now (pruned now e) granted
  Inv-pruned now e granted i = record {
    kept = keep_later now now e.history (omega arith) ∙ i.kept;
    capped = i.capped;
    latest = i.latest;
    begun = i.begun;
    spaced = i.spaced;
    past = i.past;
  }

  apart :
      (now : Time) (e : CooldownEntry) (granted : List Time)
      → blocked parse_duration p action now (pruned now e) ≡ false
      → Inv now e granted
      → All (λ t. t + interval ≤ now) granted
  unfolding blocked
  apart now e [] free i = tt
  apart now e (t ∷ ts) free i =
      All-weaken (λ u. u ≤ e.last_action) (λ u. u + interval ≤ now) (t ∷ ts)
        (λ u h. ground (arith, i.begun)) i.latest

  pub Inv-grant :
      (now : Time) (e : CooldownEntry) (granted : List Time)
      → 0 < now
      → blocked parse_duration p action now (pruned now e) ≡ false
      → Inv now e granted
      → Inv now
          (record { last_action = now; history = (pruned now e).history ++ now ∷ [] })
          (granted ++ now ∷ [])
  unfolding blocked
  Inv-grant now e granted pos free i = record {
    kept =
        keep-append (within now hour) (pruned now e).history (now ∷ [])
        ∙ ap (λ l. l ++ keep (within now hour) (now ∷ [])) (Inv-pruned now e granted i).kept
        ∙ sym (keep-append (within now hour) granted (now ∷ []));
    capped = λ h. ground (
      arith,
      ap length (keep-append (within now hour) granted (now ∷ [])),
      length-append (keep (within now hour) granted) (now ∷ []),
      ap length i.kept,
    );
    latest =
        All-snoc (λ t. t ≤ now) granted now
          (All-weaken (λ t. t ≤ e.last_action) (λ t. t ≤ now) granted (λ t h. omega (arith, i.past))
            i.latest)
          (omega arith);
    begun = inr pos;
    spaced = Spaced-snoc interval granted now i.spaced (apart now e granted free i);
    past = omega arith;
  }
