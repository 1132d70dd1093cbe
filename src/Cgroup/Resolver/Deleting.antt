-- ===== src/Cgroup/Resolver/Deleting.antt =====
-- pkg/cgroup/resolver.go: what the loops over the history do to one identifier.
use self_healing_kubernetes.Base.{
  ℕ, ◌+◌, Distinct-insert, Distinct-erase, ◌≡◌, refl, inl, inr, Bool, true, false, not, ◌&&◌,
  Option, none, some, List, [], ◌∷◌, arith, length, leb, ltb, if◌then◌else◌, Keyed, lookup, erase,
  nat_Eq, Time, Bool-cases, lookup-insert, lookup-erase, Distinct, ◌==◌, ap,
}
use self_healing_kubernetes.Cgroup.Scan.{ContainerInfo}
use self_healing_kubernetes.Cgroup.Resolver.{
  Deleted, move_one, evict_one, has, move_unlisted, erase_listed, forget, forget_until_fits,
  cap_history, history_cap, evict_each, history_ttl,
}

-- Whether each loop keeps an identifier, the same in both maps.
pub record Kept (id : ℕ) (keeps : Bool) (old new : Deleted) : Type 0 where
  pub history_kept : lookup id new.history ≡ (if keeps then lookup id old.history else none)
  pub times_kept : lookup id new.deleted_at ≡ (if keeps then lookup id old.deleted_at else none)

pub Kept-refl : (id : ℕ) (d : Deleted) → Kept id true d d
Kept-refl id d = record { history_kept = refl; times_kept = refl }

forget-Kept : (id k : ℕ) (d : Deleted) → Kept id (not (k == id)) d (forget k d)
forget-Kept id k d = record {
  history_kept = ground (arith, lookup-erase k id d.history);
  times_kept = ground (arith, lookup-erase k id d.deleted_at);
}

Kept-then :
    (id : ℕ) (a b : Bool) (d e f : Deleted) → Kept id a d e → Kept id b e f → Kept id (b && a) d f
Kept-then id a b d e f h k = record {
  history_kept = ground (arith, h.history_kept, k.history_kept);
  times_kept = ground (arith, h.times_kept, k.times_kept);
}

pub forget_until_fits-Kept :
    (id : ℕ) (ids : List ℕ) (d : Deleted)
    → (keeps : Bool) × Kept id keeps d (forget_until_fits ids d)
unfolding forget_until_fits
forget_until_fits-Kept id [] d = (true, Kept-refl id d)
forget_until_fits-Kept id (k ∷ ids) d =
    let (keeps, rest) = forget_until_fits-Kept id ids (forget k d) in
    elim (Bool-cases (leb (length (forget k d).history) history_cap)) [
      | inl fits ↦ (not (k == id), rw fits (forget-Kept id k d))
      | inr more ↦ (
        keeps && not (k == id),
        rw more (Kept-then id (not (k == id)) keeps d (forget k d) _ (forget-Kept id k d) rest),
      )
    ]

pub cap_history-Kept :
    (id : ℕ) (range : Keyed ℕ ContainerInfo → List ℕ) (d : Deleted)
    → (keeps : Bool) × Kept id keeps d (cap_history range d)
unfolding cap_history
cap_history-Kept id range d = elim (Bool-cases (ltb history_cap (length d.history))) [
  | inl long ↦ rw long (forget_until_fits-Kept id (range d.history) d)
  | inr fits ↦ (true, rw fits (Kept-refl id d))
]

pub lookup-erase_listed :
    (id : ℕ) (fresh : Keyed ℕ ContainerInfo) (times : Keyed ℕ Time)
    → lookup id (erase_listed fresh times) ≡ (if has id fresh then none else lookup id times)
unfolding erase_listed lookup
lookup-erase_listed id [] times = refl
lookup-erase_listed id ((k, info) ∷ fresh) times =
    ground (arith, lookup-erase_listed id fresh (erase k times), lookup-erase k id times)

-- What an identifier has after the loop: the new value, if the cache had it and the scan did not.
abbrev pub moved {ℓ} :
    {V : Type ℓ} → Option ContainerInfo → (listed : Bool) → (new old : Option V) → Option V
moved none listed new old = old
moved (some info) listed new old = if listed then old else new

move_one-history :
    (now : Time) (fresh : Keyed ℕ ContainerInfo) (k id : ℕ) (info : ContainerInfo) (d : Deleted)
    → lookup id (move_one now fresh k info d).history
      ≡ (if k == id && not (has k fresh) then some info else lookup id d.history)
unfolding move_one
move_one-history now fresh k id info d = ground (arith, lookup-insert k id info d.history)

move_one-times :
    (now : Time) (fresh : Keyed ℕ ContainerInfo) (k id : ℕ) (info : ContainerInfo) (d : Deleted)
    → lookup id (move_one now fresh k info d).deleted_at
      ≡ (if k == id && not (has k fresh) then some now else lookup id d.deleted_at)
unfolding move_one
move_one-times now fresh k id info d = ground (arith, lookup-insert k id now d.deleted_at)

pub lookup-move_unlisted :
    (now : Time) (fresh : Keyed ℕ ContainerInfo) (id : ℕ) (cache : Keyed ℕ ContainerInfo)
    (d : Deleted)
    → Distinct cache
    → (lookup id (move_unlisted now fresh cache d).history
        ≡ moved (lookup id cache) (has id fresh) (lookup id cache) (lookup id d.history))
      × (lookup id (move_unlisted now fresh cache d).deleted_at
          ≡ moved (lookup id cache) (has id fresh) (some now) (lookup id d.deleted_at))
unfolding move_unlisted lookup Distinct
lookup-move_unlisted now fresh id [] d h = (refl, refl)
lookup-move_unlisted now fresh id ((k, info) ∷ cache) d h =
    let rest = lookup-move_unlisted now fresh id cache (move_one now fresh k info d) h.1 in
    (
      ground (
        arith,
        rest,
        move_one-history now fresh k id info d,
        ap (λ j. lookup j cache) {x = k} {y = id},
        ap (λ j. has j fresh) {x = k} {y = id},
      ),
      ground (
        arith,
        rest,
        move_one-times now fresh k id info d,
        ap (λ j. lookup j cache) {x = k} {y = id},
        ap (λ j. has j fresh) {x = k} {y = id},
      ),
    )

-- `now.Sub(t) >= ttl`, where a time is recorded.
abbrev pub expired : Time → Option Time → Bool
expired now none = false
expired now (some time) = leb (time + history_ttl) now

evict_one-Kept :
    (now : Time) (id k : ℕ) (time : Time) (d : Deleted)
    → Kept id (not (k == id && leb (time + history_ttl) now)) d (evict_one now k time d)
unfolding evict_one
evict_one-Kept now id k time d = record {
  history_kept = ground (arith, lookup-erase k id d.history);
  times_kept = ground (arith, lookup-erase k id d.deleted_at);
}

pub evict_each-Kept :
    (now : Time) (id : ℕ) (times : Keyed ℕ Time) (d : Deleted)
    → Distinct times
    → Kept id (not (expired now (lookup id times))) d (evict_each now times d)
unfolding evict_each lookup Distinct
evict_each-Kept now id [] d h = Kept-refl id d
evict_each-Kept now id ((k, time) ∷ times) d h =
    let one = evict_one-Kept now id k time d in
    let rest = evict_each-Kept now id times (evict_one now k time d) h.1 in
    record {
      history_kept =
          ground
            (arith, one.history_kept, rest.history_kept, ap (λ j. lookup j times) {x = k} {y = id});
      times_kept =
          ground
            (arith, one.times_kept, rest.times_kept, ap (λ j. lookup j times) {x = k} {y = id});
    }

-- No loop gives an identifier two times.
Distinct-move_one :
    (now : Time) (fresh : Keyed ℕ ContainerInfo) (k : ℕ) (info : ContainerInfo) (d : Deleted)
    → Distinct d.deleted_at
    → Distinct (move_one now fresh k info d).deleted_at
unfolding move_one
Distinct-move_one now fresh k info d h = elim (Bool-cases (has k fresh)) [
  | inl listed ↦ rw listed h
  | inr gone ↦ rw gone (Distinct-insert k now d.deleted_at h)
]

pub Distinct-move_unlisted :
    (now : Time) (fresh cache : Keyed ℕ ContainerInfo) (d : Deleted)
    → Distinct d.deleted_at
    → Distinct (move_unlisted now fresh cache d).deleted_at
unfolding move_unlisted
Distinct-move_unlisted now fresh [] d h = h
Distinct-move_unlisted now fresh ((k, info) ∷ cache) d h =
    Distinct-move_unlisted now fresh cache _ (Distinct-move_one now fresh k info d h)

pub Distinct-erase_listed :
    (fresh : Keyed ℕ ContainerInfo) (times : Keyed ℕ Time)
    → Distinct times
    → Distinct (erase_listed fresh times)
unfolding erase_listed
Distinct-erase_listed [] times h = h
Distinct-erase_listed ((k, info) ∷ fresh) times h =
    Distinct-erase_listed fresh (erase k times) (Distinct-erase k times h)

Distinct-forget_until_fits :
    (ids : List ℕ) (d : Deleted)
    → Distinct d.deleted_at
    → Distinct (forget_until_fits ids d).deleted_at
unfolding forget_until_fits
Distinct-forget_until_fits [] d h = h
Distinct-forget_until_fits (k ∷ ids) d h =
    elim (Bool-cases (leb (length (forget k d).history) history_cap)) [
      | inl fits ↦ rw fits (Distinct-erase k d.deleted_at h)
      | inr more ↦
          rw more (Distinct-forget_until_fits ids (forget k d) (Distinct-erase k d.deleted_at h))
    ]

pub Distinct-cap_history :
    (range : Keyed ℕ ContainerInfo → List ℕ) (d : Deleted)
    → Distinct d.deleted_at
    → Distinct (cap_history range d).deleted_at
unfolding cap_history
Distinct-cap_history range d h = elim (Bool-cases (ltb history_cap (length d.history))) [
  | inl long ↦ rw long (Distinct-forget_until_fits (range d.history) d h)
  | inr fits ↦ rw fits h
]

Distinct-evict_one :
    (now : Time) (k : ℕ) (time : Time) (d : Deleted)
    → Distinct d.deleted_at
    → Distinct (evict_one now k time d).deleted_at
unfolding evict_one
Distinct-evict_one now k time d h = elim (Bool-cases (leb (time + history_ttl) now)) [
  | inl old ↦ rw old (Distinct-erase k d.deleted_at h)
  | inr young ↦ rw young h
]

pub Distinct-evict_each :
    (now : Time) (times : Keyed ℕ Time) (d : Deleted)
    → Distinct d.deleted_at
    → Distinct (evict_each now times d).deleted_at
unfolding evict_each
Distinct-evict_each now [] d h = h
Distinct-evict_each now ((k, time) ∷ times) d h =
    Distinct-evict_each now times _ (Distinct-evict_one now k time d h)
