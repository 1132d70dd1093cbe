-- ===== src/ProcessGraph/Snapshot.antt =====
-- pkg/graph/model.go: the snapshot of the process graph and its queries. The copies of slices are
-- the lists themselves. `sort` is `sort.Slice` of the roots by the fork times of their nodes.
pub mod Agreement
use self_healing_kubernetes.Base.{
  ℕ, zero, suc, String, Bool, true, false, not, ◌&&◌, ◌||◌, Option, none, some, List, [], ◌∷◌, ◌++◌,
  any, keep, map, nat_eq, nat_Eq, Eq, ◌==◌, string_Eq, if◌then◌else◌, Keyed, lookup, insert,
  reverse, Time,
}
use self_healing_kubernetes.ProcessGraph.Event.{EventEnvelope}
use self_healing_kubernetes.ProcessGraph.Node.{
  NodeKey, key_Eq, ProcessNode, event_ring, max_ancestors,
}
use self_healing_kubernetes.ProcessGraph.Graph.{ProcessGraph, list_at}
use self_healing_kubernetes.ProcessGraph.Reads.{is_top}

-- `none` for the events is a panic of `EventRing`.
pub record SnapshotNode : Type 0 where
  pub key : NodeKey
  pub ppid : ℕ
  pub comm : String
  pub exe_path : String
  pub container_name : String
  pub fork_time : Time
  pub exec_time : Time
  pub sid : ℕ
  pub pgid : ℕ
  pub is_alive : Bool
  pub exit_code : ℕ
  pub events : Option (List (Option EventEnvelope))
  pub children : List NodeKey

pub record Snapshot : Type 0 where
  pub nodes : Keyed NodeKey SnapshotNode
  pub sessions : Keyed ℕ (List NodeKey)
  pub roots : List NodeKey
  pub at : Time

abbrev pub copy_node : Keyed NodeKey (List NodeKey) → NodeKey → ProcessNode → SnapshotNode
copy_node children key n = record {
  key = n.key;
  ppid = n.ppid;
  comm = n.comm;
  exe_path = n.exe_path;
  container_name = n.container_name;
  fork_time = n.fork_time;
  exec_time = n.exec_time;
  sid = n.sid;
  pgid = n.pgid;
  is_alive = n.is_alive;
  exit_code = n.exit_code;
  events = event_ring n;
  children = list_at key children;
}

-- The loop over the nodes.
unfoldable pub copy_nodes :
    Keyed NodeKey (List NodeKey) → Keyed NodeKey ProcessNode → Keyed NodeKey SnapshotNode
copy_nodes children [] = []
copy_nodes children ((key, n) ∷ rest) = (key, copy_node children key n) ∷ copy_nodes children rest

abbrev pub is_snapshot_root : Keyed NodeKey SnapshotNode → NodeKey × SnapshotNode → Bool
is_snapshot_root nodes (key, n) =
    is_top n.ppid || elim (lookup (record { cgroup_id = key.cgroup_id; pid = n.ppid }) nodes) [
      | none ↦ true
      | some _ ↦ false
    ]

unfoldable pub take_snapshot :
    (sort : Keyed NodeKey SnapshotNode → List NodeKey → List NodeKey) (now : Time)
    → ProcessGraph
    → Snapshot
take_snapshot sort now g =
    let nodes = copy_nodes g.children g.nodes in
    record {
      nodes = nodes;
      sessions = g.sessions;
      roots = sort nodes (map (λ kn. kn.0) (keep (is_snapshot_root nodes) nodes));
      at = now;
    }

-- The loop of `Ancestors` of the snapshot, with the depth that is left and the visited keys.
unfoldable pub climb_snapshot :
    Keyed NodeKey SnapshotNode → (depth : ℕ) → List NodeKey → NodeKey → List SnapshotNode
climb_snapshot nodes zero visited cur = []
climb_snapshot nodes (suc depth) visited cur = elim (lookup cur nodes) [
  | none ↦ []
  | some n ↦
      if any (λ seen. seen == cur) visited
      then []
      else (n
          ∷ (if is_top n.ppid || nat_eq n.ppid cur.pid
              then []
              else climb_snapshot nodes depth (cur ∷ visited)
                  (record { cgroup_id = cur.cgroup_id; pid = n.ppid })))
]

unfoldable pub snapshot_ancestors : Snapshot → NodeKey → List SnapshotNode
snapshot_ancestors s key = reverse (climb_snapshot s.nodes max_ancestors [] key)

-- The nodes that the snapshot has, of a list of keys.
unfoldable pub present_in : Keyed NodeKey SnapshotNode → List NodeKey → List SnapshotNode
present_in nodes [] = []
present_in nodes (k ∷ ks) =
    let rest = present_in nodes ks in elim (lookup k nodes) [ none ↦ rest | some n ↦ n ∷ rest ]

unfoldable pub snapshot_children : Snapshot → NodeKey → List SnapshotNode
snapshot_children s key = elim (lookup key s.nodes) [
  | none ↦ []
  | some n ↦ present_in s.nodes n.children
]

-- The loop of `GroupByCgroup`.
unfoldable pub group_nodes :
    Keyed ℕ (List SnapshotNode) → Keyed NodeKey SnapshotNode → Keyed ℕ (List SnapshotNode)
group_nodes groups [] = groups
group_nodes groups ((key, n) ∷ rest) =
    let group : List SnapshotNode = elim (lookup n.key.cgroup_id groups) [
      | none ↦ []
      | some ns ↦ ns
    ] in
    group_nodes (insert n.key.cgroup_id (group ++ n ∷ []) groups) rest

unfoldable pub group_by_cgroup : Snapshot → Keyed ℕ (List SnapshotNode)
group_by_cgroup s = group_nodes [] s.nodes

unfoldable pub roots_for_cgroup : Snapshot → ℕ → List SnapshotNode
roots_for_cgroup s cgroup_id = present_in s.nodes (keep (λ k. nat_eq k.cgroup_id cgroup_id) s.roots)

-- `after_last_slash` is `path[idx+1:]` behind `strings.LastIndexByte(path, '/')`, `none` without one.
unfoldable pub display_comm : (after_last_slash : String → Option String) → SnapshotNode → String
display_comm after_last_slash n =
    if n.exe_path == ""
    then n.comm
    else elim (after_last_slash n.exe_path) [ none ↦ n.exe_path | some base ↦ base ]
