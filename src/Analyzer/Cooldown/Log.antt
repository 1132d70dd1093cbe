-- ===== src/Analyzer/Cooldown/Log.antt =====
-- The store answers as a log of all the actions would: pruning the entries is not seen.
use self_healing_kubernetes.Base.{
  ◌+◌, ◌≤◌, leb, ◌&&◌, length, tally-append, subst, Option-cases, String, ◌≡◌, refl, sym, ◌∙◌, ap,
  Bool, true, Option, none, some, List, [], ◌∷◌, ◌++◌, arith, keep, keep-keep, tally, tally-keep,
  ltb, ◌==◌, string_Eq, if◌then◌else◌, Keyed, lookup, lookup-insert, Time, Duration, hour, within,
  ◌-◌, within_mono, Bool-cases, inl, inr,
}
use self_healing_kubernetes.Analyzer.Cooldown.{
  CooldownPolicy, CooldownEntry, CooldownKey, key_Eq, permits, allow, acted, record_action,
  remaining_cooldown,
}

-- The actions taken, in order.
pub record Action : Type 0 where
  pub key : CooldownKey
  pub at : Time

-- `Record` for each action.
unfoldable pub record_all :
    Keyed CooldownKey CooldownEntry → List Action → Keyed CooldownKey CooldownEntry
record_all c [] = c
record_all c (a ∷ rest) = record_all (record_action c a.key.pod a.key.action_type a.at) rest

-- The reference: the times of the key's actions, newest first, none forgotten.
abbrev pub times_of : CooldownKey → List Time → List Action → List Time
times_of key seen [] = seen
times_of key seen (a ∷ rest) = times_of key (if a.key == key then a.at ∷ seen else seen) rest

-- Whether those times permit another action.
abbrev pub permitted : List Time → CooldownPolicy → Time → Bool
permitted [] policy now = true
permitted (t ∷ ts) policy now =
    leb (t + policy.duration) now && ltb (tally (within now hour) (t ∷ ts)) policy.max_per_hour

-- From a time on, the times of the actions do not go back, up to the last time given.
abbrev pub IsForward : Time → List Action → Time → Type 0
IsForward start [] now = start ≤ now
IsForward start (a ∷ rest) now = (start ≤ a.at) × IsForward a.at rest now

-- What an entry holds counts like the full list, at every time from now on.
abbrev Agrees : Time → Option CooldownEntry → List Time → Type 0
Agrees now none [] = Unit
Agrees now none (t ∷ ts) = ⊥
Agrees now (some e) [] = ⊥
Agrees now (some e) (t ∷ ts) =
    (e.last_action ≡ t)
    × ((later : Time)
        → now ≤ later
        → tally (within later hour) e.recent_times ≡ tally (within later hour) (t ∷ ts))

Agrees-later :
    (now later : Time) (o : Option CooldownEntry) (ts : List Time)
    → now ≤ later
    → Agrees now o ts
    → Agrees later o ts
Agrees-later now later none [] h a = tt
Agrees-later now later none (t ∷ ts) h a = elim a [ ]
Agrees-later now later (some e) [] h a = elim a [ ]
Agrees-later now later (some e) (t ∷ ts) h (same, counts) =
    (same, λ m k. counts m (omega (arith, h, k)))

tally-acted :
    (now later : Time) (ts : List Time)
    → now ≤ later
    → tally (within later hour) (keep (within now hour) (ts ++ now ∷ []))
      ≡ tally (within later hour) ts + tally (within later hour) (now ∷ [])
tally-acted now later ts h =
    let q = within later hour in
    let p = within now hour in
    sym (tally-keep q (keep p (ts ++ now ∷ [])))
    ∙ ap length (keep-keep p q (ts ++ now ∷ []) λ t. within_mono now later hour t h)
    ∙ tally-keep q (ts ++ now ∷ [])
    ∙ tally-append q ts (now ∷ [])

Agrees-acted :
    (now : Time) (o : Option CooldownEntry) (ts : List Time)
    → Agrees now o ts
    → Agrees now (some (acted o now)) (now ∷ ts)
unfolding acted
Agrees-acted now none [] a = (refl, λ later h. omega (arith, tally-acted now later [] h))
Agrees-acted now none (t ∷ ts) a = elim a [ ]
Agrees-acted now (some e) [] a = elim a [ ]
Agrees-acted now (some e) (t ∷ ts) (same, counts) =
    (refl, λ later h. omega (arith, tally-acted now later e.recent_times h, counts later h))

Agrees-record_action :
    (key : CooldownKey) (c : Keyed CooldownKey CooldownEntry) (ts : List Time) (a : Action)
    → Agrees a.at (lookup key c) ts
    → Agrees a.at
        (lookup key (record_action c a.key.pod a.key.action_type a.at))
        (if a.key == key then a.at ∷ ts else ts)
unfolding record_action
Agrees-record_action key c ts a h = elim (Bool-cases (a.key == key)) [
  | inl same ↦
      rw (lookup-insert a.key key (acted (lookup a.key c) a.at) c, same)
        (Agrees-acted a.at (lookup a.key c) ts
          (subst (λ k. Agrees a.at (lookup k c) ts) (sym ((key_Eq.equal_iff a.key key).0 same)) h))
  | inr ne ↦ rw (lookup-insert a.key key (acted (lookup a.key c) a.at) c, ne) h
]

Agrees-record_all :
    (key : CooldownKey) (c : Keyed CooldownKey CooldownEntry) (start now : Time) (seen : List Time)
    (log : List Action)
    → IsForward start log now
    → Agrees start (lookup key c) seen
    → Agrees now (lookup key (record_all c log)) (times_of key seen log)
unfolding record_all
Agrees-record_all key c start now seen [] forward a =
    Agrees-later start now (lookup key c) seen forward a
Agrees-record_all key c start now seen (x ∷ rest) (first, forward) a =
    Agrees-record_all key (record_action c x.key.pod x.key.action_type x.at) x.at now
      (if x.key == key then x.at ∷ seen else seen) rest forward
      (Agrees-record_action key c seen x (Agrees-later start x.at (lookup key c) seen first a))

permits-permitted :
    (now : Time) (o : Option CooldownEntry) (ts : List Time) (policy : CooldownPolicy)
    → Agrees now o ts
    → permits o policy now ≡ permitted ts policy now
unfolding permits
permits-permitted now none [] policy a = refl
permits-permitted now none (t ∷ ts) policy a = elim a [ ]
permits-permitted now (some e) [] policy a = elim a [ ]
permits-permitted now (some e) (t ∷ ts) policy (same, counts) =
    let h = counts now (omega arith) in ground arith

-- After any actions recorded in an empty store, in the order of their times and none later than now,
-- `Allow` answers as the full list of the key's times would: true if there is none, and else true
-- exactly if the newest is at least the policy's duration old and fewer than the policy's maximum
-- are less than an hour old. The pruning of the entries is not seen.
pub allow-record_all :
    (log : List Action) (pod action_type : String) (policy : CooldownPolicy) (now : Time)
    → IsForward 0 log now
    → allow (record_all [] log) pod action_type policy now
      ≡ permitted (times_of (record { pod = pod; action_type = action_type }) [] log) policy now
unfolding allow lookup
allow-record_all log pod action_type policy now forward =
    let key : CooldownKey = record { pod = pod; action_type = action_type } in
    permits-permitted now (lookup key (record_all [] log)) (times_of key [] log) policy
      (Agrees-record_all key [] 0 now [] log forward tt)

-- Whether the actions of the last hour leave room for another, by the full list.
abbrev pub has_room : List Time → CooldownPolicy → Time → Bool
has_room [] policy now = true
has_room (t ∷ ts) policy now = ltb (tally (within now hour) (t ∷ ts)) policy.max_per_hour

-- The wait that the last action imposes.
abbrev wait_of : Option CooldownEntry → CooldownPolicy → Time → Duration
wait_of none policy now = 0
wait_of (some e) policy now = e.last_action + policy.duration - now

permits-wait_of :
    (now later : Time) (o : Option CooldownEntry) (ts : List Time) (policy : CooldownPolicy)
    → now ≤ later
    → Agrees later o ts
    → permits o policy later ≡ (leb (now + wait_of o policy now) later && has_room ts policy later)
unfolding permits
permits-wait_of now later none [] policy h a = ground (arith, h)
permits-wait_of now later none (t ∷ ts) policy h a = elim a [ ]
permits-wait_of now later (some e) [] policy h a = elim a [ ]
permits-wait_of now later (some e) (t ∷ ts) policy h (same, counts) =
    let same_count = counts later (omega arith) in ground (arith, h, same_count, same)

remaining_cooldown-eq-wait_of :
    (c : Keyed CooldownKey CooldownEntry) (pod action_type : String) (policy : CooldownPolicy)
    (now : Time)
    → remaining_cooldown c pod action_type policy now
      ≡ wait_of (lookup (record { pod = pod; action_type = action_type }) c) policy now
unfolding remaining_cooldown
remaining_cooldown-eq-wait_of c pod action_type policy now =
    elim (Option-cases (lookup (record { pod = pod; action_type = action_type }) c)) [
      | inl e ↦ ground (arith, e)
      | inr (entry, e) ↦ ground (arith, e)
    ]

-- After any actions recorded in an empty store, in the order of their times and none later than now:
-- at any time from now on, and with no action recorded in between, `Allow` answers true exactly if
-- the remaining cooldown that is reported now has passed and, where the key has an action, fewer of
-- its actions than the policy's maximum are less than an hour old.
pub allow-remaining_cooldown :
    (log : List Action) (pod action_type : String) (policy : CooldownPolicy) (now later : Time)
    → IsForward 0 log now
    → now ≤ later
    → allow (record_all [] log) pod action_type policy later ≡ (
        leb (now + remaining_cooldown (record_all [] log) pod action_type policy now) later
        && has_room
            (times_of (record { pod = pod; action_type = action_type }) [] log)
            policy
            later)
unfolding allow lookup
allow-remaining_cooldown log pod action_type policy now later forward h =
    let key : CooldownKey = record { pod = pod; action_type = action_type } in
    let c = record_all [] log in
    let ts = times_of key [] log in
    rw (remaining_cooldown-eq-wait_of c pod action_type policy now) (
      permits-wait_of now later (lookup key c) ts policy h (
        Agrees-later now later (lookup key c) ts h
          (Agrees-record_all key [] 0 now [] log forward tt)))
