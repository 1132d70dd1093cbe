-- ===== src/Collector/Polling.antt =====
-- pkg/collector: what the collectors that poll a map of the kernel share: the walk over the map, which
-- gives a sample for a known cgroup and a key to delete for another, and `float64`.
use self_healing_kubernetes.Base.{
  ℕ, Bool, Option, none, some, List, [], ◌∷◌, Keyed, erase, Eq, if◌then◌else◌, Time,
}
use self_healing_kubernetes.Cgroup.Scan.{ContainerInfo}

-- What the collectors use of `float64`. `seconds now prev` is `now.Sub(prev).Seconds()`, `age now first`
-- is `float64(now.UnixNano()-int64(first))`, and `at_most` is `<=`.
pub record Floats : Type 1 where
  pub Float : Type 0
  pub from_nat : ℕ → Float
  pub add : Float → Float → Float
  pub divide : Float → Float → Float
  pub at_most : Float → Float → Bool
  pub seconds : (now prev : Time) → Float
  pub age : (now first : ℕ) → Float

module _ (floats : Floats) where
  open floats use {Float}

  -- `elapsed := now.Sub(prevAt).Seconds(); if elapsed <= 0 { elapsed = 1 }`
  abbrev pub elapsed : (now prev_at : Time) → Float
  elapsed now prev_at =
      let seconds = floats.seconds now prev_at in
      if floats.at_most seconds (floats.from_nat 0) then floats.from_nat 1 else seconds

  -- `float64(n) / d`
  abbrev pub over : ℕ → Float → Float
  over n d = floats.divide (floats.from_nat n) d

-- What a walk over the map leaves: the state of the resolver, the samples and the keys to delete.
pub record Polled (S K X : Type 0) : Type 0 where
  pub state : S
  pub samples : List X
  pub to_delete : List K

module _ {S K V X : Type 0} (resolve : ℕ → S → S × Option ContainerInfo) (cgroup_of : K → ℕ)
    (sample_of : K → V → ContainerInfo → S → S × X) where
  unfoldable pub poll : Keyed K V → S → Polled S K X
  poll [] s = record { state = s; samples = []; to_delete = [] }
  poll ((k, v) ∷ m) s =
      let answer = resolve (cgroup_of k) s in
      elim answer.1 [
        | none ↦ let rest = poll m answer.0 in record rest { to_delete = k ∷ rest.to_delete }
        | some info ↦
            let one = sample_of k v info answer.0 in
            let rest = poll m one.0 in record rest { samples = one.1 ∷ rest.samples }
      ]

-- `for _, k := range toDelete { m.Delete(&k) }`
unfoldable pub delete_keys {ℓ κ} :
    {K : Type ℓ} {V : Type κ} ⦃e : Eq K⦄ → List K → Keyed K V → Keyed K V
delete_keys [] m = m
delete_keys (k ∷ keys) m = delete_keys keys (erase k m)

-- The value that the variable of the walk holds after it: that of the last entry, or the old one.
abbrev pub last_value {ℓ κ} : {K : Type ℓ} {V : Type κ} → Keyed K V → V → V
last_value [] v = v
last_value ((k, w) ∷ m) v = last_value m w
