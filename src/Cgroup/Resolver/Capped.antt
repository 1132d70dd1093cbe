-- ===== src/Cgroup/Resolver/Capped.antt =====
-- pkg/cgroup/resolver.go: the bound of the history.
use self_healing_kubernetes.Base.{
  ℕ, ◌≤◌, ◌≡◌, inl, inr, true, List, [], ◌∷◌, arith, any, length, leb, ltb, Keyed, lookup, nat_Eq,
  nat_eq, Time, Bool-cases, lookup-erase,
}
use self_healing_kubernetes.Cgroup.Scan.{ContainerInfo, World}
use self_healing_kubernetes.Cgroup.Resolver.{
  Resolver, Deleted, has, forget, forget_until_fits, cap_history, history_cap, refresh, listed_scan,
}

-- A range over a map gives every key of it.
abbrev pub Ranges : List ℕ → Keyed ℕ ContainerInfo → Type 0
Ranges ids m = (k : ℕ) → has k m ≡ true → any (nat_eq k) ids ≡ true

Ranges-nil : (m : Keyed ℕ ContainerInfo) → Ranges [] m → length m ≤ 0
unfolding lookup
Ranges-nil [] h = omega arith
Ranges-nil ((k, info) ∷ m) h = ground (arith, h k, nat_Eq.equal_iff k k)

Ranges-forget :
    (id : ℕ) (ids : List ℕ) (d : Deleted)
    → Ranges (id ∷ ids) d.history
    → Ranges ids (forget id d).history
Ranges-forget id ids d h k found = ground (arith, h k, lookup-erase id k d.history)

forget_until_fits-capped :
    (ids : List ℕ) (d : Deleted)
    → Ranges ids d.history
    → length (forget_until_fits ids d).history ≤ history_cap
unfolding forget_until_fits
forget_until_fits-capped [] d h = omega (arith, Ranges-nil d.history h)
forget_until_fits-capped (id ∷ ids) d h =
    elim (Bool-cases (leb (length (forget id d).history) history_cap)) [
      | inl fits ↦ rw fits (ground (arith, fits))
      | inr more ↦ rw more (forget_until_fits-capped ids (forget id d) (Ranges-forget id ids d h))
    ]

-- After a scan the history has 1000 entries at most, if a range over the map gives every key of it.
pub refresh-capped :
    (now : Time) (world : World) (r : Resolver)
    → ((m : Keyed ℕ ContainerInfo) → Ranges (world.range_history m) m)
    → length (refresh now world r).history ≤ 1000
unfolding refresh cap_history
refresh-capped now world r ranges =
    let listed = listed_scan now world r in
    elim (Bool-cases (ltb history_cap (length listed.history))) [
      | inl long ↦ rw long (
          forget_until_fits-capped (world.range_history listed.history) listed
            (ranges listed.history))
      | inr fits ↦ ground (arith, fits)
    ]
