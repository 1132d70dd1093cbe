-- ===== src/Base/Maps.antt =====
-- Go's `map[K]V` and `sync.Map` as association lists, with the laws of one key at a time.
use Prim.Native.Nat.{suc}
use mathlib.Core.Path.{◌≡◌, refl, ap}
use mathlib.Core.Bool.{Bool, true, false}
use mathlib.Core.List.{List, [], ◌∷◌}
use mathlib.Core.Option.{Option, none, some}
use native.Mathlib.Omega.{arith}
use self_healing_kubernetes.Base.Tests.{Eq, ◌==◌, if◌then◌else◌}
use self_healing_kubernetes.Base.Lists.{length}

abbrev pub Keyed {ℓ κ} : Type ℓ → Type κ → Type (ℓ ⊔ κ)
Keyed K V = List (K × V)

pub beq_refl {ℓ} : {K : Type ℓ} ⦃e : Eq K⦄ (k : K) → (k == k) ≡ true
beq_refl ⦃e⦄ k = (e.equal_iff k k).1 refl

module _ {ℓ κ} {K : Type ℓ} {V : Type κ} ⦃e : Eq K⦄ where
  -- `v, ok := m[k]`
  unfoldable pub lookup : K → Keyed K V → Option V
  lookup k [] = none
  lookup k ((j, found) ∷ rest) = if j == k then some found else lookup k rest

  -- `m[k] = v`
  unfoldable pub insert : K → V → Keyed K V → Keyed K V
  insert k new [] = (k, new) ∷ []
  insert k new ((j, old) ∷ rest) = if j == k then (k, new) ∷ rest else (j, old) ∷ insert k new rest

  -- `delete(m, k)`
  unfoldable pub erase : K → Keyed K V → Keyed K V
  erase k [] = []
  erase k ((j, w) ∷ m) = if j == k then erase k m else (j, w) ∷ erase k m

  -- `for k := range m { if p(k) { delete(m, k) } }`
  unfoldable pub delete_if : (K → Bool) → Keyed K V → Keyed K V
  delete_if p [] = []
  delete_if p ((j, w) ∷ m) = if p j then delete_if p m else (j, w) ∷ delete_if p m

  pub lookup-insert :
      (k j : K) (new : V) (m : Keyed K V)
      → lookup j (insert k new m) ≡ (if k == j then some new else lookup j m)
  unfolding insert lookup
  lookup-insert k j new [] = refl
  lookup-insert k j new ((i, old) ∷ rest) =
      ground (arith, lookup-insert k j new rest, e.equal_iff i k, e.equal_iff i j, e.equal_iff k j)

  pub lookup-erase :
      (k j : K) (m : Keyed K V) → lookup j (erase k m) ≡ (if k == j then none else lookup j m)
  unfolding lookup erase
  lookup-erase k j [] = ground arith
  lookup-erase k j ((i, w) ∷ m) =
      ground (arith, e.equal_iff k j, e.equal_iff i k, e.equal_iff i j, lookup-erase k j m)

  pub lookup-insert_self : (k : K) (v : V) (m : Keyed K V) → lookup k (insert k v m) ≡ some v
  lookup-insert_self k v m = rw (lookup-insert, (e.equal_iff k k).1 refl)

  pub lookup-insert_ne :
      (k j : K) (v : V) (m : Keyed K V) → (k == j) ≡ false → lookup j (insert k v m) ≡ lookup j m
  lookup-insert_ne k j v m h = rw (lookup-insert, h)

  pub lookup-delete_if :
      (p : K → Bool) (j : K) (m : Keyed K V)
      → lookup j (delete_if p m) ≡ (if p j then none else lookup j m)
  unfolding lookup delete_if
  lookup-delete_if p j [] = ground arith
  lookup-delete_if p j ((i, w) ∷ m) =
      ground (arith, e.equal_iff i j, lookup-delete_if p j m, ap {A = K} p {x = i} {y = j})

  -- `for k, v := range m { if !p(k, v) { delete(m, k) } }`
  unfoldable pub keep_entries : (K → V → Bool) → Keyed K V → Keyed K V
  keep_entries p [] = []
  keep_entries p ((j, w) ∷ m) = if p j w then (j, w) ∷ keep_entries p m else keep_entries p m

  -- No key has two entries, as in a Go map.
  unfoldable pub Distinct : Keyed K V → Type (ℓ ⊔ κ)
  Distinct [] = Unit
  Distinct ((j, w) ∷ m) = (lookup j m ≡ none) × Distinct m

  pub Distinct-insert : (k : K) (v : V) (m : Keyed K V) → Distinct m → Distinct (insert k v m)
  unfolding insert lookup Distinct
  Distinct-insert k v [] d = (refl, tt)
  Distinct-insert k v ((j, w) ∷ m) d =
      ground
        (arith, e.equal_iff j k, e.equal_iff k j, lookup-insert k j v m, Distinct-insert k v m d.1)

  abbrev pub passing : (K → V → Bool) → K → Option V → Option V
  passing p j none = none
  passing p j (some v) = if p j v then some v else none

  pub lookup-keep_entries :
      (p : K → V → Bool) (j : K) (m : Keyed K V)
      → Distinct m
      → lookup j (keep_entries p m) ≡ passing p j (lookup j m)
  unfolding lookup keep_entries Distinct
  lookup-keep_entries p j [] d = refl
  lookup-keep_entries p j ((i, w) ∷ m) d = ground (
    arith,
    e.equal_iff i j,
    lookup-keep_entries p j m d.1,
    ap {A = K} (λ k. p k w) {x = i} {y = j},
    ap (λ k. lookup k m) {x = i} {y = j},
  )

  pub Distinct-keep_entries :
      (p : K → V → Bool) (m : Keyed K V) → Distinct m → Distinct (keep_entries p m)
  unfolding keep_entries Distinct
  Distinct-keep_entries p [] d = tt
  Distinct-keep_entries p ((i, w) ∷ m) d =
      ground (arith, lookup-keep_entries p i m d.1, Distinct-keep_entries p m d.1)

  pub Distinct-erase : (k : K) (m : Keyed K V) → Distinct m → Distinct (erase k m)
  unfolding erase Distinct
  Distinct-erase k [] d = tt
  Distinct-erase k ((i, w) ∷ m) d =
      ground (arith, Distinct-erase k m d.1, lookup-erase k i m, e.equal_iff i k)

  pub erase_absent : (k : K) (m : Keyed K V) → lookup k m ≡ none → erase k m ≡ m
  unfolding erase lookup
  erase_absent k [] h = refl
  erase_absent k ((i, w) ∷ m) h = ground (arith, erase_absent k m)

  pub length-erase :
      (k : K) (v : V) (m : Keyed K V)
      → Distinct m
      → lookup k m ≡ some v
      → suc (length (erase k m)) ≡ length m
  unfolding erase lookup Distinct
  length-erase k v [] d h = cc
  length-erase k v ((i, w) ∷ m) d h = ground (
    arith,
    length-erase k v m d.1,
    erase_absent k m,
    e.equal_iff i k,
    ap (λ j. lookup j m) {x = i} {y = k},
  )

  pub length-insert_new :
      (k : K) (v : V) (m : Keyed K V) → lookup k m ≡ none → length (insert k v m) ≡ suc (length m)
  unfolding insert lookup
  length-insert_new k v [] h = refl
  length-insert_new k v ((i, w) ∷ m) h = ground (arith, length-insert_new k v m)

  pub length-insert_old :
      (k : K) (v w : V) (m : Keyed K V) → lookup k m ≡ some w → length (insert k v m) ≡ length m
  unfolding insert lookup
  length-insert_old k v w [] h = cc
  length-insert_old k v w ((i, u) ∷ m) h = ground (arith, length-insert_old k v w m)

  pub lookup-cons :
      (i j : K) (v : V) (m : Keyed K V)
      → lookup j ((i, v) ∷ m) ≡ (if i == j then some v else lookup j m)
  unfolding lookup
  lookup-cons i j v m = refl

  pub lookup-nil-ne : (j : K) (v : V) → ¬ (lookup j [] ≡ some v)
  unfolding lookup
  lookup-nil-ne j v h = cc
