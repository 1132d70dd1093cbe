-- ===== src/ProcessGraph/Snapshot/Agreement.antt =====
-- The queries of a snapshot answer as those of the graph that it copies.
use self_healing_kubernetes.Base.{
  ℕ, zero, suc, ◌*◌, ◌-◌, ◌^◌, ◌<◌, ◌≡◌, refl, sym, ap, ◌∙◌, inl, inr, Option, none, some, List, [],
  ◌∷◌, ◌++◌, arith, length, map, nat_Eq, ◌==◌, if◌then◌else◌, Bool-cases, Option-cases, Keyed,
  lookup, reverse, Time,
}
use mathlib.Core.List.{map-append, reverse-cons}
use self_healing_kubernetes.ProcessGraph.Node.{
  NodeKey, key_Eq, key_beq_iff, ProcessNode, max_ancestors,
}
use self_healing_kubernetes.ProcessGraph.Graph.{ProcessGraph, list_at, new_graph, has_node}
use self_healing_kubernetes.ProcessGraph.Graph.Runs.{GraphEvent, run, run-Fits}
use self_healing_kubernetes.ProcessGraph.Reads.{climb, ancestors, present, children_of}
use self_healing_kubernetes.ProcessGraph.Snapshot.{
  SnapshotNode, copy_node, copy_nodes, take_snapshot, climb_snapshot, snapshot_ancestors,
  present_in, snapshot_children,
}

abbrev copied : Keyed NodeKey (List NodeKey) → NodeKey → Option ProcessNode → Option SnapshotNode
copied children key none = none
copied children key (some n) = some (copy_node children key n)

lookup-copy_nodes :
    (children : Keyed NodeKey (List NodeKey)) (nodes : Keyed NodeKey ProcessNode) (key : NodeKey)
    → lookup key (copy_nodes children nodes) ≡ copied children key (lookup key nodes)
unfolding lookup copy_nodes
lookup-copy_nodes children [] key = refl
lookup-copy_nodes children ((k, n) ∷ rest) key = elim (Bool-cases (k == key)) [
  | inl same ↦ rw same (ap (λ j. some (copy_node children j n)) ((key_beq_iff k key).0 same))
  | inr other ↦ rw other (lookup-copy_nodes children rest key)
]

-- The copy of a node that stands under its own key.
abbrev pub copy_of : ProcessGraph → ProcessNode → SnapshotNode
copy_of g n = copy_node g.children n.key n

abbrev IsKeyed : Keyed NodeKey ProcessNode → Type 0
IsKeyed nodes = (j : NodeKey) (m : ProcessNode) → lookup j nodes ≡ some m → m.key ≡ j

copied-known :
    (g : ProcessGraph) (key : NodeKey) (n : ProcessNode)
    → IsKeyed g.nodes
    → lookup key g.nodes ≡ some n
    → lookup key (copy_nodes g.children g.nodes) ≡ some (copy_of g n)
copied-known g key n keyed found =
    lookup-copy_nodes g.children g.nodes key
    ∙ ap (copied g.children key) found
    ∙ ap (λ j. some (copy_node g.children j n)) (sym (keyed key n found))

copied-unknown :
    (g : ProcessGraph) (key : NodeKey)
    → lookup key g.nodes ≡ none
    → lookup key (copy_nodes g.children g.nodes) ≡ none
copied-unknown g key absent =
    lookup-copy_nodes g.children g.nodes key ∙ ap (copied g.children key) absent

climb_snapshot-eq :
    (g : ProcessGraph) (depth : ℕ) (visited : List NodeKey) (key : NodeKey)
    → IsKeyed g.nodes
    → climb_snapshot (copy_nodes g.children g.nodes) depth visited key
      ≡ map (copy_of g) (climb g.nodes depth visited key)
unfolding climb_snapshot climb
climb_snapshot-eq g zero visited key keyed = refl
climb_snapshot-eq g (suc depth) visited key keyed = elim (Option-cases (lookup key g.nodes)) [
  | inl absent ↦ ground (arith, absent, copied-unknown g key absent)
  | inr (n, found) ↦ ground (
    arith,
    found,
    copied-known g key n keyed found,
    climb_snapshot-eq g depth (key ∷ visited) (record { cgroup_id = key.cgroup_id; pid = n.ppid })
        keyed,
  )
]

map-reverse : {A B : Type 0} (f : A → B) (xs : List A) → map f (reverse xs) ≡ reverse (map f xs)
map-reverse f [] = refl
map-reverse f (x ∷ xs) =
    ap (map f) (reverse-cons x xs)
    ∙ map-append f (reverse xs) (x ∷ [])
    ∙ ap (λ ys. ys ++ f x ∷ []) (map-reverse f xs)
    ∙ sym (reverse-cons (f x) (map f xs))

present_in-eq :
    (g : ProcessGraph) (keys : List NodeKey)
    → IsKeyed g.nodes
    → present_in (copy_nodes g.children g.nodes) keys ≡ map (copy_of g) (present g.nodes keys)
unfolding present_in present
present_in-eq g [] keyed = refl
present_in-eq g (k ∷ keys) keyed = elim (Option-cases (lookup k g.nodes)) [
  | inl absent ↦ ground (arith, absent, copied-unknown g k absent, present_in-eq g keys keyed)
  | inr (n, found) ↦
      ground (arith, found, copied-known g k n keyed found, present_in-eq g keys keyed)
]

snapshot_children-eq :
    (g : ProcessGraph) (key : NodeKey)
    → IsKeyed g.nodes
    → elim (lookup key (copy_nodes g.children g.nodes)) [
      | none ↦ []
      | some n ↦ present_in (copy_nodes g.children g.nodes) n.children
    ]
      ≡ (if has_node key g then map (copy_of g) (present g.nodes (list_at key g.children)) else [])
snapshot_children-eq g key keyed = elim (Option-cases (lookup key g.nodes)) [
  | inl absent ↦ ground (arith, absent, copied-unknown g key absent)
  | inr (n, found) ↦ ground (
    arith,
    found,
    copied-known g key n keyed found,
    keyed key n found,
    present_in-eq g (list_at key g.children) keyed,
  )
]

-- A snapshot of the graph after any sequence of events on a new graph, too short to wrap the sequence
-- number, answers as the graph: the ancestors of a process are the copies of the graph's at the
-- default depth, and its children are the copies of the graph's where the graph has a node of the
-- process, and none otherwise.
pub take_snapshot-agrees :
    (sort : Keyed NodeKey SnapshotNode → List NodeKey → List NodeKey) (now : Time) (max_nodes : ℕ)
    (events : List GraphEvent) (cgroup_id pid : ℕ)
    → 2 * length events < 2 ^ 64 - 1
    → let g = run events (new_graph max_nodes) in
      let key : NodeKey = record { cgroup_id = cgroup_id; pid = pid } in
      (snapshot_ancestors (take_snapshot sort now g) key
        ≡ map (copy_of g) (ancestors g cgroup_id pid 0).0)
      × (snapshot_children (take_snapshot sort now g) key
          ≡ (if has_node key g then map (copy_of g) (children_of g cgroup_id pid) else []))
unfolding snapshot_ancestors snapshot_children take_snapshot ancestors children_of
take_snapshot-agrees sort now max_nodes events cgroup_id pid h =
    let g = run events (new_graph max_nodes) in
    let key : NodeKey = record { cgroup_id = cgroup_id; pid = pid } in
    let keyed : IsKeyed g.nodes = λ j m e. ((run-Fits max_nodes events h).keyed j m e).0 in
    (
      ap reverse (climb_snapshot-eq g max_ancestors [] key keyed)
          ∙ sym (map-reverse (copy_of g) (climb g.nodes max_ancestors [] key)),
      snapshot_children-eq g key keyed,
    )
