-- ===== src/ProcessGraph/Tests.antt =====
-- A graph of at most two nodes on a short run, and a ring of events that is not full.
use self_healing_kubernetes.Base.{
  String, ℕ, ◌-◌, ◌*◌, ◌≤◌, ◌≡◌, refl, ◌⊎◌, true, false, some, List, [], ◌∷◌, arith, length, drop,
  leb, if◌then◌else◌, lookup, Distinct, reverse, map,
}
use self_healing_kubernetes.ProcessGraph.Event.{EventEnvelope, uint32}
use self_healing_kubernetes.ProcessGraph.Node.{
  NodeKey, key_Eq, ProcessNode, blank_node, event_ring, event_ring_cap,
}
use self_healing_kubernetes.ProcessGraph.Node.Correlated.{push_all, event_ring-push_all}
use self_healing_kubernetes.ProcessGraph.Graph.{ProcessGraph, has_node, new_graph, find_oldest}
use self_healing_kubernetes.ProcessGraph.Graph.Eviction.{IsNumbered, IsNumbered-All, oldest_of}
use self_healing_kubernetes.ProcessGraph.Graph.Invariant.{Fits}
use self_healing_kubernetes.ProcessGraph.Graph.Runs.{
  GraphEvent, forks, execs, exits, correlates, run, run-Fits,
}
use self_healing_kubernetes.ProcessGraph.Reads.{ancestors, climb, children_of}
use self_healing_kubernetes.ProcessGraph.Snapshot.{
  snapshot_ancestors, snapshot_children, take_snapshot,
}
use self_healing_kubernetes.ProcessGraph.Snapshot.Agreement.{copy_of, take_snapshot-agrees}
use self_healing_kubernetes.ProcessGraph.Reads.Ancestry.{
  IsLine, NoRepeat, IsWhole, line_keys, ancestors_lem,
}

abbrev event_of : (pid ppid : ℕ) → String → EventEnvelope
event_of pid ppid process = record {
  timestamp = 100 * pid;
  cgroup_id = 7;
  container_name = "web";
  pid = pid;
  ppid = ppid;
  process = process;
  parent_process = "init";
  event_type = "process.fork";
  ancestry_truncated = false;
  metadata = ("sid", uint32 5) ∷ [];
}

abbrev events : List GraphEvent
events =
    forks (event_of 10 2 "sh")
    ∷ forks (event_of 11 10 "ls")
    ∷ execs (event_of 12 11 "id")
    ∷ exits 7 11 1
    ∷ correlates 7 12 (event_of 12 11 "id")
    ∷ []

run-Fits_example : Fits 2 0 (2 * length events) (run events (new_graph 2))
run-Fits_example = run-Fits 2 events (omega arith)

abbrev key : ℕ → NodeKey
key pid = record { cgroup_id = 7; pid = pid }

abbrev node : (pid ppid seq : ℕ) → NodeKey × ProcessNode
node pid ppid seq = (key pid, record (blank_node (key pid) seq) { ppid = ppid })

-- One node too many.
abbrev crowded : ProcessGraph
crowded = record (new_graph 2) {
  nodes = node 10 1 2 ∷ node 11 10 1 ∷ node 12 11 3 ∷ [];
  children = (key 10, key 11 ∷ []) ∷ (key 11, key 12 ∷ []) ∷ [];
  seq = 3;
  max_nodes = 2;
}

Distinct-crowded : Distinct crowded.nodes
unfolding Distinct lookup
Distinct-crowded = (refl, (refl, (refl, tt)))

IsNumbered-crowded : IsNumbered crowded.nodes
IsNumbered-crowded = IsNumbered-All crowded.nodes (omega arith, (omega arith, (omega arith, tt)))

oldest_is_11 : oldest_of crowded.nodes ≡ key 11
unfolding find_oldest
oldest_is_11 = refl

ancestors_lem_example :
    (chain : List ProcessNode) × (ancestors crowded 7 12 2 ≡ (reverse chain, leb 2 (length chain)))
    × IsLine crowded.nodes (key 12) chain
    × NoRepeat (line_keys (key 12) chain)
    × (length chain ≤ 2)
    × ((leb 2 (length chain) ≡ true) ⊎ IsWhole crowded.nodes [] (key 12) chain)
ancestors_lem_example = ancestors_lem crowded 7 12 2

-- The line ends at the process whose parent is 1, and is flagged.
flagged_at_root : (ancestors crowded 7 12 3).1 ≡ true
unfolding ancestors climb lookup
flagged_at_root = refl

abbrev two_events : List EventEnvelope
two_events = event_of 10 2 "sh" ∷ event_of 11 10 "ls" ∷ []

event_ring-push_all_example :
    event_ring (push_all two_events (blank_node (key 10) 1))
    ≡ some (drop (length (map some two_events) - event_ring_cap) (map some two_events))
event_ring-push_all_example = event_ring-push_all (key 10) 1 two_events

take_snapshot-agrees_example :
    let g = run events (new_graph 2) in
    (snapshot_ancestors (take_snapshot (λ nodes keys. keys) 9 g) (key 12)
      ≡ map (copy_of g) (ancestors g 7 12 0).0)
    × (snapshot_children (take_snapshot (λ nodes keys. keys) 9 g) (key 12)
        ≡ (if has_node (key 12) g then map (copy_of g) (children_of g 7 12) else []))
take_snapshot-agrees_example =
    take_snapshot-agrees (λ nodes keys. keys) 9 2 events 7 12 (omega arith)
