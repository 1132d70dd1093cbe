-- ===== src/ProcessGraph/Reads.antt =====
-- pkg/graph/model.go: the queries of the process graph.
pub mod Ancestry
use self_healing_kubernetes.Base.{
  ℕ, zero, suc, ◌+◌, String, Bool, true, false, not, ◌&&◌, ◌||◌, Option, none, some, List, [], ◌∷◌,
  ◌++◌, length, any, keep, leb, nat_eq, nat_Eq, Eq, ◌==◌, if◌then◌else◌, Keyed, lookup, reverse,
  map,
}
use self_healing_kubernetes.ProcessGraph.Node.{NodeKey, key_Eq, ProcessNode, max_ancestors}
use self_healing_kubernetes.ProcessGraph.Graph.{ProcessGraph, list_at}

unfoldable pub lookup_node : ProcessGraph → (cgroup_id pid : ℕ) → Option ProcessNode
lookup_node g cgroup_id pid = lookup (record { cgroup_id = cgroup_id; pid = pid }) g.nodes

abbrev pub is_top : ℕ → Bool
is_top ppid = nat_eq ppid 0 || nat_eq ppid 1

-- The loop of `Ancestors` from a key, with the depth that is left and the visited keys.
unfoldable pub climb :
    Keyed NodeKey ProcessNode → (depth : ℕ) → List NodeKey → NodeKey → List ProcessNode
climb nodes zero visited key = []
climb nodes (suc depth) visited key = elim (lookup key nodes) [
  | none ↦ []
  | some node ↦
      if any (λ seen. seen == key) visited
      then []
      else (node
          ∷ (if is_top node.ppid || nat_eq node.ppid key.pid
              then []
              else climb nodes depth (key ∷ visited)
                  (record { cgroup_id = key.cgroup_id; pid = node.ppid })))
]

-- The chain, root first, and whether it has the depth's length; 0 stands for a depth not positive.
unfoldable pub ancestors : ProcessGraph → (cgroup_id pid max_depth : ℕ) → List ProcessNode × Bool
ancestors g cgroup_id pid max_depth =
    let depth = if nat_eq max_depth 0 then max_ancestors else max_depth in
    let chain = climb g.nodes depth [] (record { cgroup_id = cgroup_id; pid = pid }) in
    (reverse chain, leb depth (length chain))

-- The nodes that the map still has, of a list of keys.
unfoldable pub present : Keyed NodeKey ProcessNode → List NodeKey → List ProcessNode
present nodes [] = []
present nodes (k ∷ ks) =
    let rest = present nodes ks in elim (lookup k nodes) [ none ↦ rest | some n ↦ n ∷ rest ]

unfoldable pub children_of : ProcessGraph → (cgroup_id pid : ℕ) → List ProcessNode
children_of g cgroup_id pid =
    present g.nodes (list_at (record { cgroup_id = cgroup_id; pid = pid }) g.children)

unfoldable pub session : ProcessGraph → ℕ → List ProcessNode
session g sid = present g.nodes (list_at sid g.sessions)

-- The test of `Roots` on one entry of the map.
abbrev pub is_root : Keyed NodeKey ProcessNode → NodeKey × ProcessNode → Bool
is_root nodes (key, n) =
    is_top n.ppid || elim (lookup (record { cgroup_id = key.cgroup_id; pid = n.ppid }) nodes) [
      | none ↦ true
      | some _ ↦ false
    ]

-- `sort` is `sort.Slice` by the fork time.
unfoldable pub roots :
    (sort : List ProcessNode → List ProcessNode) → ProcessGraph → (cgroup_id : ℕ) → List ProcessNode
roots sort g cgroup_id = sort (
    map (λ kn. kn.1)
      (keep (λ kn. (nat_eq cgroup_id 0 || nat_eq kn.0.cgroup_id cgroup_id) && is_root g.nodes kn)
        g.nodes))

abbrev pub node_count : ProcessGraph → ℕ
node_count g = length g.nodes
