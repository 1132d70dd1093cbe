-- ===== src/ProcessGraph/Node.antt =====
-- pkg/graph/model.go: the keys, the nodes and the ring of correlated events of a node.
pub mod Correlated
use self_healing_kubernetes.Base.{
  ℕ, ◌+◌, ◌%◌, String, ◌≡◌, ◌↔◌, Bool, true, false, ◌&&◌, Option, none, some, List, [], arith, set,
  take, replicate, ltb, nat_eq, nat_Eq, Eq, ◌==◌, if◌then◌else◌, Time,
}
use self_healing_kubernetes.Base.Ring.{read_wrapped}
use self_healing_kubernetes.ProcessGraph.Event.{EventEnvelope}

abbrev pub max_ancestors : ℕ
max_ancestors = 8

abbrev pub event_ring_cap : ℕ
event_ring_cap = 32

abbrev pub default_max_nodes : ℕ
default_max_nodes = 8192

pub record NodeKey : Type 0 where
  pub cgroup_id : ℕ
  pub pid : ℕ

abbrev pub key_beq : NodeKey → NodeKey → Bool
key_beq a b = nat_eq a.cgroup_id b.cgroup_id && nat_eq a.pid b.pid

pub key_beq_iff : (a b : NodeKey) → (key_beq a b ≡ true) ↔ (a ≡ b)
key_beq_iff a b = (ground arith, ground arith)

instance abbrev pub key_Eq : Eq NodeKey
key_Eq = record { equal = key_beq; equal_iff = key_beq_iff }

-- The zero time is 0; `none` in the ring is a nil pointer. The exit code is only stored.
pub record ProcessNode : Type 0 where
  pub key : NodeKey
  pub ppid : ℕ
  pub comm : String
  pub exe_path : String
  pub container_name : String
  pub fork_time : Time
  pub exec_time : Time
  pub sid : ℕ
  pub pgid : ℕ
  pub is_alive : Bool
  pub exit_code : ℕ
  pub events : List (Option EventEnvelope)
  pub ev_head : ℕ
  pub ev_count : ℕ
  pub seq : ℕ

-- `&ProcessNode{Key: key, seq: seq}`: all else is zero.
abbrev pub blank_node : NodeKey → ℕ → ProcessNode
blank_node key seq = record {
  key = key;
  ppid = 0;
  comm = "";
  exe_path = "";
  container_name = "";
  fork_time = 0;
  exec_time = 0;
  sid = 0;
  pgid = 0;
  is_alive = false;
  exit_code = 0;
  events = replicate event_ring_cap none;
  ev_head = 0;
  ev_count = 0;
  seq = seq;
}

-- `none` is a panic on an index out of range.
unfoldable pub event_ring : ProcessNode → Option (List (Option EventEnvelope))
event_ring n =
    if nat_eq n.ev_count 0
    then some []
    else if ltb n.ev_count event_ring_cap
    then some (take n.ev_count n.events)
    else read_wrapped n.events event_ring_cap n.ev_head event_ring_cap 0

unfoldable pub push_event : EventEnvelope → ProcessNode → ProcessNode
push_event ev n = record n {
  events = set n.events n.ev_head (some ev);
  ev_head = (n.ev_head + 1) % event_ring_cap;
  ev_count = if ltb n.ev_count event_ring_cap then n.ev_count + 1 else n.ev_count;
}
