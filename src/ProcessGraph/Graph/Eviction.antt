-- ===== src/ProcessGraph/Graph/Eviction.antt =====
-- The eviction removes the node with the lowest sequence number, and only that one.
use self_healing_kubernetes.Base.{
  ℕ, suc, ◌-◌, ◌^◌, ◌≤◌, ◌<◌, ◌≡◌, refl, sym, ap, ◌⊎◌, inl, inr, false, none, some, List, [], ◌∷◌,
  arith, length, All, ltb, leb, nat_Eq, ◌==◌, if◌then◌else◌, Bool-cases, Keyed, lookup, erase,
  lookup-erase, Distinct, length-erase, lookup-cons, beq_refl, lookup-nil-ne,
}
use self_healing_kubernetes.ProcessGraph.Node.{NodeKey, key_Eq, key_beq_iff, ProcessNode}
use self_healing_kubernetes.ProcessGraph.Graph.{
  ProcessGraph, list_at, remove_key, find_oldest, remove_from_all, evict, evict_if_needed,
}

-- What the loop over the nodes found.
abbrev Found : NodeKey → ℕ → Keyed NodeKey ProcessNode → NodeKey × ℕ → Type 0
Found k0 s0 nodes (k, s) =
    (s ≤ s0)
    × ((j : NodeKey) (m : ProcessNode) → lookup j nodes ≡ some m → s ≤ m.seq)
    × ((k ≡ k0) × (s ≡ s0) ⊎ (n : ProcessNode) × (lookup k nodes ≡ some n) × (n.seq ≡ s))

-- The found node is still found behind an entry of another key.
lookup-behind :
    (i k : NodeKey) (v n : ProcessNode) (m : Keyed NodeKey ProcessNode)
    → lookup i m ≡ none
    → lookup k m ≡ some n
    → lookup k ((i, v) ∷ m) ≡ some n
lookup-behind i k v n m fresh h = elim (Bool-cases (i == k)) [
  | inl same ↦ absurd (cc (ap (λ j. lookup j m) ((key_beq_iff i k).0 same), fresh, h))
  | inr other ↦ rw (lookup-cons i k v m, other) h
]

Found-lower :
    (k0 k : NodeKey) (s0 : ℕ) (n : ProcessNode) (rest : Keyed NodeKey ProcessNode) (r : NodeKey × ℕ)
    → lookup k rest ≡ none
    → n.seq < s0
    → Found k n.seq rest r
    → Found k0 s0 ((k, n) ∷ rest) r
Found-lower k0 k s0 n rest (k', s') fresh h (le, all, at) = (
  omega (arith, le, h),
  λ j m e. ground (arith, lookup-cons k j n rest, e, all j m),
  elim at [
    | inl (here, same) ↦ inr (n, rw (here, lookup-cons k k n rest, beq_refl k), sym same)
    | inr (n', found, same) ↦ inr (n', lookup-behind k k' n n' rest fresh found, same)
  ],
)

Found-same :
    (k0 k : NodeKey) (s0 : ℕ) (n : ProcessNode) (rest : Keyed NodeKey ProcessNode) (r : NodeKey × ℕ)
    → lookup k rest ≡ none
    → s0 ≤ n.seq
    → Found k0 s0 rest r
    → Found k0 s0 ((k, n) ∷ rest) r
Found-same k0 k s0 n rest (k', s') fresh h (le, all, at) = (
  le,
  λ j m e. ground (arith, lookup-cons k j n rest, e, all j m),
  elim at [
    | inl start ↦ inl start
    | inr (n', found, same) ↦ inr (n', lookup-behind k k' n n' rest fresh found, same)
  ],
)

find_oldest-Found :
    (k0 : NodeKey) (s0 : ℕ) (nodes : Keyed NodeKey ProcessNode)
    → Distinct nodes
    → Found k0 s0 nodes (find_oldest k0 s0 nodes)
unfolding find_oldest Distinct
find_oldest-Found k0 s0 [] d =
    (omega arith, λ j m h. absurd (lookup-nil-ne j m h), inl (refl, refl))
find_oldest-Found k0 s0 ((k, n) ∷ rest) d = elim (Bool-cases (ltb n.seq s0)) [
  | inl lower ↦ rw lower (
      Found-lower k0 k s0 n rest (find_oldest k n.seq rest) d.0 (ground arith)
        (find_oldest-Found k n.seq rest d.1))
  | inr same ↦ rw same (
      Found-same k0 k s0 n rest (find_oldest k0 s0 rest) d.0 (ground arith)
        (find_oldest-Found k0 s0 rest d.1))
]

list_at-remove_from_all :
    (oldest p : NodeKey) (m : Keyed NodeKey (List NodeKey))
    → list_at p (remove_from_all oldest m) ≡ remove_key (list_at p m) oldest
unfolding list_at remove_from_all lookup
list_at-remove_from_all oldest p [] = refl
list_at-remove_from_all oldest p ((k, ks) ∷ rest) =
    ground (arith, list_at-remove_from_all oldest p rest)

list_at-erase :
    (oldest p : NodeKey) (m : Keyed NodeKey (List NodeKey))
    → list_at p (erase oldest m) ≡ (if oldest == p then [] else list_at p m)
unfolding list_at
list_at-erase oldest p m = ground (arith, lookup-erase oldest p m)

-- No node has the number that the loop starts from, nor a higher one.
abbrev pub IsNumbered : Keyed NodeKey ProcessNode → Type 0
IsNumbered nodes = (j : NodeKey) (m : ProcessNode) → lookup j nodes ≡ some m → m.seq < 2 ^ 64 - 1

pub IsNumbered-All :
    (nodes : Keyed NodeKey ProcessNode) → All (λ kn. kn.1.seq < 2 ^ 64 - 1) nodes → IsNumbered nodes
IsNumbered-All [] h j m e = absurd (lookup-nil-ne j m e)
IsNumbered-All ((k, n) ∷ rest) h j m e =
    ground (arith, h, e, lookup-cons k j n rest, IsNumbered-All rest h.1 j m)

-- The node of a key is there and none has a lower number.
abbrev pub IsOldest : NodeKey → Keyed NodeKey ProcessNode → Type 0
IsOldest k nodes =
    (n : ProcessNode) × (lookup k nodes ≡ some n)
    × ((j : NodeKey) (m : ProcessNode) → lookup j nodes ≡ some m → n.seq ≤ m.seq)

-- Where the loop starts.
abbrev nobody : NodeKey
nobody = record { cgroup_id = 0; pid = 0 }

abbrev pub oldest_of : Keyed NodeKey ProcessNode → NodeKey
oldest_of nodes = (find_oldest nobody (2 ^ 64 - 1) nodes).0

IsOldest-Found :
    (k k0 : NodeKey) (s0 : ℕ) (n : ProcessNode) (rest : Keyed NodeKey ProcessNode) (r : NodeKey × ℕ)
    → n.seq < s0
    → Found k0 s0 ((k, n) ∷ rest) r
    → IsOldest r.0 ((k, n) ∷ rest)
IsOldest-Found k k0 s0 n rest (k', s') h (le, all, at) = elim at [
  | inl (here, same) ↦
      absurd (omega (arith, h, same, all k n (rw (lookup-cons k k n rest, beq_refl k) refl)))
  | inr (n', found, same) ↦ (n', found, λ j m e. omega (arith, same, all j m e))
]

oldest_of-IsOldest :
    (nodes : Keyed NodeKey ProcessNode)
    → Distinct nodes
    → IsNumbered nodes
    → 0 < length nodes
    → IsOldest (oldest_of nodes) nodes
oldest_of-IsOldest [] d num pos = absurd (omega (arith, pos))
oldest_of-IsOldest ((k, n) ∷ rest) d num pos =
    IsOldest-Found k nobody (2 ^ 64 - 1) n rest (find_oldest nobody (2 ^ 64 - 1) ((k, n) ∷ rest))
      (num k n (rw (lookup-cons k k n rest, beq_refl k) refl))
      (find_oldest-Found nobody (2 ^ 64 - 1) ((k, n) ∷ rest) d)

-- In a graph with more nodes than its limit, whose keys are distinct and whose sequence numbers are
-- below 2^64 - 1, an eviction removes exactly one node, which is there and has a number that no
-- other is below. Its key leaves every list of children and its own list is dropped; all other
-- nodes and children stay.
pub evict_if_needed_lem :
    (g : ProcessGraph) (k : NodeKey) (p : NodeKey)
    → Distinct g.nodes
    → IsNumbered g.nodes
    → g.max_nodes < length g.nodes
    → IsOldest (oldest_of g.nodes) g.nodes
      × (suc (length (evict_if_needed g).nodes) ≡ length g.nodes)
      × (lookup k (evict_if_needed g).nodes
          ≡ (if oldest_of g.nodes == k then none else lookup k g.nodes))
      × (list_at p (evict_if_needed g).children ≡ (
          if oldest_of g.nodes == p
          then []
          else remove_key (list_at p g.children) (oldest_of g.nodes)))
unfolding evict_if_needed evict
evict_if_needed_lem g k p d num over =
    let oldest = oldest_of-IsOldest g.nodes d num (omega (arith, over)) in
    let more : leb (length g.nodes) g.max_nodes ≡ false = ground arith in
    (
      oldest,
      rw more (length-erase (oldest_of g.nodes) oldest.0 g.nodes d oldest.1),
      rw more (lookup-erase (oldest_of g.nodes) k g.nodes),
      rw more (
          rw
            (
              list_at-erase (oldest_of g.nodes) p (remove_from_all (oldest_of g.nodes) g.children),
              list_at-remove_from_all (oldest_of g.nodes) p g.children,
            )
            refl),
    )
