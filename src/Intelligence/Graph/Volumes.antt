-- ===== src/Intelligence/Graph/Volumes.antt =====
-- The shared volumes are those that every pod uses.
use self_healing_kubernetes.Base.{
  String, ◌≡◌, refl, Bool, not, ◌&&◌, List, [], ◌∷◌, map, arith, any, all, ◌==◌, string_Eq, Keyed,
  lookup, delete_if, lookup-insert, lookup-delete_if,
}
use self_healing_kubernetes.Intelligence.Graph.{
  DependencyGraph, volumes_for_pod, set_of, in_set, intersect, shared_volumes,
}

abbrev pub is_listed : String → List String → Bool
is_listed v vs = any (λ x. x == v) vs

in_set-set_of : (v : String) (vs : List String) → in_set (set_of vs) v ≡ is_listed v vs
unfolding set_of lookup
in_set-set_of v [] = refl
in_set-set_of v (x ∷ vs) = ground (arith, lookup-insert x v tt (set_of vs), in_set-set_of v vs)

is_listed-keys :
    (v : String) (m : Keyed {0, 0} String Unit) → is_listed v (map (λ kv. kv.0) m) ≡ in_set m v
unfolding lookup
is_listed-keys v [] = refl
is_listed-keys v ((k, u) ∷ m) = ground (arith, is_listed-keys v m)

in_set-delete_if :
    (v : String) (s shared : Keyed {0, 0} String Unit)
    → in_set (delete_if (λ x. not (in_set s x)) shared) v ≡ in_set shared v && in_set s v
in_set-delete_if v s shared = ground (arith, lookup-delete_if (λ x. not (in_set s x)) v shared)

in_set-intersect :
    (g : DependencyGraph) (v : String) (shared : Keyed {0, 0} String Unit) (pods : List String)
    → in_set (intersect shared (map (λ p. set_of (volumes_for_pod g p)) pods)) v
      ≡ in_set shared v && all (λ p. is_listed v (volumes_for_pod g p)) pods
unfolding intersect
in_set-intersect g v shared [] = ground arith
in_set-intersect g v shared (p ∷ pods) =
    let s = set_of (volumes_for_pod g p) in
    ground (
      arith,
      in_set-intersect g v (delete_if (λ x. not (in_set s x)) shared) pods,
      in_set-delete_if v s shared,
      in_set-set_of v (volumes_for_pod g p),
    )

-- A volume is among the shared volumes of one or more pods exactly when the graph has a claim edge
-- to it from each of them; no pods share no volume.
shared_volumes_lem :
    (g : DependencyGraph) (pod : String) (pods : List String) (v : String)
    → (is_listed v (shared_volumes g (pod ∷ pods))
        ≡ all (λ p. is_listed v (volumes_for_pod g p)) (pod ∷ pods))
      × (shared_volumes g [] ≡ [])
unfolding shared_volumes
shared_volumes_lem g pod pods v =
    let start = set_of (volumes_for_pod g pod) in
    (
      ground (
        arith,
        is_listed-keys v (intersect start (map (λ p. set_of (volumes_for_pod g p)) pods)),
        in_set-intersect g v start pods,
        in_set-set_of v (volumes_for_pod g pod),
      ),
      refl,
    )
