-- ===== src/ProcessGraph/Graph.antt =====
-- pkg/graph/model.go: the process graph. The lock is left out. A node that the code changes through
-- its pointer is stored again, if the map still has it.
pub mod Eviction
pub mod Invariant
pub mod Making
pub mod Runs
use self_healing_kubernetes.Base.{
  ℕ, zero, suc, ◌+◌, ◌-◌, ◌%◌, ◌^◌, String, Bool, true, false, not, ◌&&◌, ◌||◌, Option, none, some,
  List, [], ◌∷◌, ◌++◌, length, any, keep, ltb, leb, nat_eq, nat_Eq, Eq, ◌==◌, string_Eq,
  if◌then◌else◌, Keyed, lookup, insert, erase, reverse,
}
use self_healing_kubernetes.ProcessGraph.Event.{EventEnvelope, uint32_meta, text_meta}
use self_healing_kubernetes.ProcessGraph.Node.{
  NodeKey, key_Eq, ProcessNode, blank_node, push_event, max_ancestors, default_max_nodes,
}

pub record ProcessGraph : Type 0 where
  pub nodes : Keyed NodeKey ProcessNode
  pub children : Keyed NodeKey (List NodeKey)
  pub sessions : Keyed ℕ (List NodeKey)
  pub max_nodes : ℕ
  pub seq : ℕ

-- `New`; 0 stands for every argument that is not positive.
unfoldable pub new_graph : ℕ → ProcessGraph
new_graph max_nodes = record {
  nodes = [];
  children = [];
  sessions = [];
  max_nodes = if nat_eq max_nodes 0 then default_max_nodes else max_nodes;
  seq = 0;
}

abbrev pub contains_key : List NodeKey → NodeKey → Bool
contains_key ks k = any (λ x. x == k) ks

abbrev pub remove_key : List NodeKey → NodeKey → List NodeKey
remove_key ks k = keep (λ x. not (x == k)) ks

module _ {K : Type 0} ⦃e : Eq K⦄ where
  -- `m[k]` of a map of lists; a missing key reads as nil.
  unfoldable pub list_at : K → Keyed K (List NodeKey) → List NodeKey
  list_at k m = elim (lookup k m) [ none ↦ [] | some ks ↦ ks ]

  -- `if !containsKey(m[k], key) { m[k] = append(m[k], key) }`
  unfoldable pub add_member : K → NodeKey → Keyed K (List NodeKey) → Keyed K (List NodeKey)
  add_member k key m =
      if contains_key (list_at k m) key then m else insert k (list_at k m ++ key ∷ []) m

-- The loop that looks for the lowest sequence number.
unfoldable pub find_oldest : NodeKey → ℕ → Keyed NodeKey ProcessNode → NodeKey × ℕ
find_oldest oldest oldest_seq [] = (oldest, oldest_seq)
find_oldest oldest oldest_seq ((k, n) ∷ rest) =
    if ltb n.seq oldest_seq then find_oldest k n.seq rest else find_oldest oldest oldest_seq rest

-- `for pk, ks := range g.children { g.children[pk] = removeKey(ks, oldest) }`
unfoldable pub remove_from_all :
    NodeKey → Keyed NodeKey (List NodeKey) → Keyed NodeKey (List NodeKey)
remove_from_all oldest [] = []
remove_from_all oldest ((pk, ks) ∷ rest) = (pk, remove_key ks oldest) ∷ remove_from_all oldest rest

-- The removal of one node.
unfoldable pub evict : NodeKey → ProcessGraph → ProcessGraph
evict oldest g = record g {
  children = erase oldest (remove_from_all oldest g.children);
  sessions = elim (lookup oldest g.nodes) [
    | none ↦ g.sessions
    | some n ↦
        if nat_eq n.sid 0
        then g.sessions
        else insert n.sid (remove_key (list_at n.sid g.sessions) oldest) g.sessions
  ];
  nodes = erase oldest g.nodes;
}

unfoldable pub evict_if_needed : ProcessGraph → ProcessGraph
evict_if_needed g =
    if leb (length g.nodes) g.max_nodes
    then g
    else evict (find_oldest (record { cgroup_id = 0; pid = 0 }) (2 ^ 64 - 1) g.nodes).0 g

-- A change through the pointer to the node of a key.
unfoldable pub modify : NodeKey → (ProcessNode → ProcessNode) → ProcessGraph → ProcessGraph
modify key f g = record g {
  nodes = elim (lookup key g.nodes) [ none ↦ g.nodes | some n ↦ insert key (f n) g.nodes ];
}

-- `g.seq++; g.nodes[key] = …` with the new number in the node.
unfoldable pub add_node : NodeKey → (ℕ → ProcessNode) → ProcessGraph → ProcessGraph
add_node key make g =
    let seq' = (g.seq + 1) % 2 ^ 64 in
    record g { nodes = insert key (make seq') g.nodes; seq = seq' }

abbrev pub has_node : NodeKey → ProcessGraph → Bool
has_node key g = elim (lookup key g.nodes) [ none ↦ false | some _ ↦ true ]

unfoldable pub add_child : (parent child : NodeKey) → ProcessGraph → ProcessGraph
add_child parent child g = record g { children = add_member parent child g.children }

-- The parent stub of a fork.
abbrev pub stub_node : NodeKey → EventEnvelope → ℕ → ProcessNode
stub_node key env seq = record (blank_node key seq) {
  comm = env.parent_process;
  container_name = env.container_name;
  is_alive = true;
}

-- What a fork writes into the child.
abbrev pub forked : EventEnvelope → ProcessNode → ProcessNode
forked env n = record n {
  ppid = env.ppid;
  comm = env.process;
  container_name = env.container_name;
  fork_time = env.timestamp;
  is_alive = true;
}

-- `if !ok && env.PPID != 0 { … }`
unfoldable pub ensure_parent : NodeKey → EventEnvelope → ProcessGraph → ProcessGraph
ensure_parent parent env g =
    if not (has_node parent g) && not (nat_eq env.ppid 0)
    then evict_if_needed (add_node parent (stub_node parent env) g)
    else g

-- `child, exists := g.nodes[childKey]; if !exists { … }`
unfoldable pub ensure_child : NodeKey → ProcessGraph → ProcessGraph
ensure_child child g =
    if has_node child g then g else evict_if_needed (add_node child (blank_node child) g)

abbrev pub sid_of : EventEnvelope → Option ℕ
sid_of env = elim (uint32_meta env.metadata "sid") [
  | none ↦ none
  | some sid ↦ if nat_eq sid 0 then none else some sid
]

unfoldable pub join_session : ℕ → NodeKey → ProcessGraph → ProcessGraph
join_session sid key g = record g { sessions = add_member sid key g.sessions }

-- The session and the process group of a fork.
unfoldable pub track_fork : NodeKey → EventEnvelope → ProcessGraph → ProcessGraph
track_fork key env g =
    let g' : ProcessGraph = elim (sid_of env) [
      | none ↦ g
      | some sid ↦ join_session sid key (modify key (λ n. record n { sid = sid }) g)
    ] in
    elim (uint32_meta env.metadata "pgid") [
      | none ↦ g'
      | some pgid ↦ modify key (λ n. record n { pgid = pgid }) g'
    ]

abbrev pub key_of : EventEnvelope → NodeKey
key_of env = record { cgroup_id = env.cgroup_id; pid = env.pid }

abbrev pub parent_of : EventEnvelope → NodeKey
parent_of env = record { cgroup_id = env.cgroup_id; pid = env.ppid }

unfoldable pub add_fork : EventEnvelope → ProcessGraph → ProcessGraph
add_fork env g =
    let ready = ensure_child (key_of env) (ensure_parent (parent_of env) env g) in
    let linked = add_child (parent_of env) (key_of env) (modify (key_of env) (forked env) ready) in
    track_fork (key_of env) env linked

-- The node that an exec creates.
abbrev pub exec_node : EventEnvelope → ℕ → ProcessNode
exec_node env seq = record (blank_node (key_of env) seq) { ppid = env.ppid; is_alive = true }

unfoldable pub ensure_exec : EventEnvelope → ProcessGraph → ProcessGraph
ensure_exec env g =
    if has_node (key_of env) g
    then g
    else evict_if_needed
        (add_child (parent_of env) (key_of env) (add_node (key_of env) (exec_node env) g))

-- What an exec writes into the node, its session left out.
abbrev pub execed : EventEnvelope → ProcessNode → ProcessNode
execed env n = record n {
  comm = env.process;
  exec_time = env.timestamp;
  container_name = if env.container_name == "" then n.container_name else env.container_name;
  exe_path = elim (text_meta env.metadata "full_path") [
    | none ↦ n.exe_path
    | some path ↦ if path == "" then n.exe_path else path
  ];
}

-- The session of an exec, which only a node without one takes. A node that is no longer in the map
-- has just been made, without a session, and evicted.
unfoldable pub track_exec : NodeKey → EventEnvelope → ProcessGraph → ProcessGraph
track_exec key env g = elim (sid_of env) [
  | none ↦ g
  | some sid ↦ elim (lookup key g.nodes) [
    | none ↦ join_session sid key g
    | some n ↦
        if nat_eq n.sid 0
        then join_session sid key (modify key (λ n. record n { sid = sid }) g)
        else g
  ]
]

unfoldable pub add_exec : EventEnvelope → ProcessGraph → ProcessGraph
add_exec env g = track_exec (key_of env) env (modify (key_of env) (execed env) (ensure_exec env g))

unfoldable pub mark_exit : (cgroup_id pid exit_code : ℕ) → ProcessGraph → ProcessGraph
mark_exit cgroup_id pid exit_code =
    modify (record { cgroup_id = cgroup_id; pid = pid })
      (λ n. record n { is_alive = false; exit_code = exit_code })

unfoldable pub correlate_event : (cgroup_id pid : ℕ) → EventEnvelope → ProcessGraph → ProcessGraph
correlate_event cgroup_id pid ev =
    modify (record { cgroup_id = cgroup_id; pid = pid }) (push_event ev)
