-- ===== src/Collector/Lineage.antt =====
-- pkg/lineage/lineage.go and pkg/collector/lineage.go: the live processes by cgroup and number, the walk
-- to their ancestors, and the events of forks. The map that the kernel keeps is an argument.
pub mod Ancestry
pub mod Layout
pub mod Reading
use self_healing_kubernetes.Base.{
  ℕ, zero, suc, ◌+◌, ◌≡◌, ◌↔◌, String, Bool, true, false, not, ◌&&◌, ◌||◌, Option, none, some, List,
  [], ◌∷◌, arith, length, leb, nat_eq, if◌then◌else◌, Keyed, lookup, Eq, ◌==◌, Time, reverse,
  nat_Eq,
}
use self_healing_kubernetes.Base.Bytes.{Bytes, text, slice, little_endian}
use self_healing_kubernetes.ProcessGraph.Event.{EventEnvelope, Value, flag}
use self_healing_kubernetes.Cgroup.Scan.{ContainerInfo}
use self_healing_kubernetes.Collector.{null_term_str, wall_time, container_name, drain, written}

pub record LineageKey : Type 0 where
  pub cgroup_id : ℕ
  pub tgid : ℕ

abbrev pub key_beq : LineageKey → LineageKey → Bool
key_beq a b = nat_eq a.cgroup_id b.cgroup_id && nat_eq a.tgid b.tgid

pub key_beq_iff : (a b : LineageKey) → (key_beq a b ≡ true) ↔ (a ≡ b)
key_beq_iff a b = (ground arith, ground arith)

instance abbrev pub lineage_key_Eq : Eq LineageKey
lineage_key_Eq = record { equal = key_beq; equal_iff = key_beq_iff }

-- A value of the kernel's map.
pub record LineageEntryBpf : Type 0 where
  pub ppid : ℕ
  pub cgroup_id : ℕ
  pub comm : Bytes
  pub fork_ts_ns : ℕ
  pub comm_final : ℕ

pub record LineageEntry : Type 0 where
  pub ppid : ℕ
  pub cgroup_id : ℕ
  pub comm : String
  pub fork_time : Time
  pub comm_final : Bool

abbrev pub Tree : Type 0
Tree = Keyed LineageKey LineageEntryBpf

abbrev pub max_ancestor_depth : ℕ
max_ancestor_depth = 8

-- The interface of the package lineage.
pub record LineageLookup : Type 0 where
  pub lookup_entry : (cgroup_id tgid : ℕ) → Option LineageEntry
  pub ancestors_of : (cgroup_id tgid max_depth : ℕ) → List LineageEntry × Bool

abbrev pub to_lineage_entry : (boot_offset : ℕ) → LineageEntryBpf → LineageEntry
to_lineage_entry boot_offset v = record {
  ppid = v.ppid;
  cgroup_id = v.cgroup_id;
  comm = text (null_term_str v.comm);
  fork_time = wall_time boot_offset v.fork_ts_ns;
  comm_final = nat_eq v.comm_final 1;
}

module _ (boot_offset : ℕ) (tree : Tree) where
  abbrev pub find : (cgroup_id tgid : ℕ) → Option LineageEntryBpf
  find cgroup_id tgid = lookup (record { cgroup_id = cgroup_id; tgid = tgid }) tree

  unfoldable pub lookup_lineage : (cgroup_id tgid : ℕ) → Option LineageEntry
  lookup_lineage cgroup_id tgid = elim (find cgroup_id tgid) [
    | none ↦ none
    | some v ↦ some (to_lineage_entry boot_offset v)
  ]

  -- `entry.PPID == 0 || entry.PPID == 1 || entry.PPID == currentTGID`
  abbrev pub is_root : (ppid tgid : ℕ) → Bool
  is_root ppid tgid = nat_eq ppid 0 || nat_eq ppid 1 || nat_eq ppid tgid

  -- Where the walk goes on, in the cgroup that the parent's entry names, if it does: the parent is looked
  -- up under the cgroup of the child.
  unfoldable pub parent_of : (cgroup_id tgid : ℕ) → LineageEntry → Option (ℕ × ℕ)
  parent_of cgroup_id tgid entry =
      if is_root entry.ppid tgid then none else elim (find cgroup_id entry.ppid) [
        | none ↦ none
        | some parent ↦ some (parent.cgroup_id, entry.ppid)
      ]

  abbrev pub onwards :
      (go : (cgroup_id tgid : ℕ) → List LineageEntry) → Option (ℕ × ℕ) → List LineageEntry
  onwards go none = []
  onwards go (some (cgroup_id, tgid)) = go cgroup_id tgid

  -- The loop, which appends to the chain: the process itself first.
  unfoldable pub climb : (depth cgroup_id tgid : ℕ) → List LineageEntry
  climb zero cgroup_id tgid = []
  climb (suc depth) cgroup_id tgid = elim (lookup_lineage cgroup_id tgid) [
    | none ↦ []
    | some entry ↦ entry ∷ onwards (climb depth) (parent_of cgroup_id tgid entry)
  ]

  abbrev pub last_entry : List LineageEntry → Option LineageEntry
  last_entry [] = none
  last_entry (e ∷ []) = some e
  last_entry (e ∷ f ∷ chain) = last_entry (f ∷ chain)

  abbrev pub ends_at_root : Option LineageEntry → Bool
  ends_at_root none = true
  ends_at_root (some last) = nat_eq last.ppid 0 || nat_eq last.ppid 1

  abbrev pub is_truncated : (max_depth : ℕ) → List LineageEntry → Bool
  is_truncated max_depth chain =
      leb max_depth (length chain) && not (ends_at_root (last_entry chain))

  -- `if maxDepth <= 0 { maxDepth = lineage.MaxAncestorDepth }`; 0 stands for all of them.
  abbrev pub depth_or_default : ℕ → ℕ
  depth_or_default max_depth = if nat_eq max_depth 0 then max_ancestor_depth else max_depth

  unfoldable pub ancestors : (cgroup_id tgid max_depth : ℕ) → List LineageEntry × Bool
  ancestors cgroup_id tgid max_depth =
      let depth = depth_or_default max_depth in
      let chain = climb depth cgroup_id tgid in (reverse chain, is_truncated depth chain)

  -- The collector as the interface that the other collectors use.
  abbrev pub lineage_lookup : LineageLookup
  lineage_lookup = record { lookup_entry = lookup_lineage; ancestors_of = ancestors }

-- `if c.lineage != nil { if entry, ok := c.lineage.Lookup(...); ok { name = entry.Comm } }`
abbrev pub parent_comm : Option LineageLookup → (cgroup_id ppid : ℕ) → (name : String) → String
parent_comm none cgroup_id ppid name = name
parent_comm (some lineage) cgroup_id ppid name = elim (lineage.lookup_entry cgroup_id ppid) [
  | none ↦ name
  | some entry ↦ entry.comm
]

pub record ForkEventRaw : Type 0 where
  pub cgroup_id : ℕ
  pub fork_ts_ns : ℕ
  pub ppid : ℕ
  pub tgid : ℕ
  pub parent_comm : Bytes
  pub child_comm : Bytes
  pub comm_final : ℕ

abbrev pub fork_event_size : ℕ
fork_event_size = 64

unfoldable pub parse_fork_event : Bytes → ForkEventRaw
parse_fork_event bytes = record {
  cgroup_id = little_endian (slice 0 8 bytes);
  fork_ts_ns = little_endian (slice 8 8 bytes);
  ppid = little_endian (slice 16 4 bytes);
  tgid = little_endian (slice 20 4 bytes);
  parent_comm = slice 24 16 bytes;
  child_comm = slice 40 16 bytes;
  comm_final = little_endian (slice 56 1 bytes);
}

abbrev pub fork_event_to_envelope :
    (boot_offset : ℕ) → ForkEventRaw → (name : String) → EventEnvelope
fork_event_to_envelope boot_offset raw name = record {
  timestamp = wall_time boot_offset raw.fork_ts_ns;
  cgroup_id = raw.cgroup_id;
  container_name = name;
  pid = raw.tgid;
  ppid = raw.ppid;
  process = text (null_term_str raw.child_comm);
  parent_process = text (null_term_str raw.parent_comm);
  event_type = "process_fork";
  ancestry_truncated = false;
  metadata =
      ("container", Value.text name) ∷ ("child_comm_final", flag (nat_eq raw.comm_final 1)) ∷ [];
}

module _ {S : Type 0} (resolve : ℕ → S → S × Option ContainerInfo) (boot_offset : ℕ) where
  abbrev pub read_fork_event : Bytes → S → S × EventEnvelope
  read_fork_event bytes s =
      let raw = parse_fork_event bytes in
      let answer = resolve raw.cgroup_id s in
      (answer.0, fork_event_to_envelope boot_offset raw (container_name raw.cgroup_id answer.1))

  -- `none` is a collector without a ring buffer. The second list is what the writer was given.
  unfoldable pub read_fork_events :
      (has_writer : Bool) → Option (List Bytes) → S → S × List EventEnvelope × List EventEnvelope
  read_fork_events has_writer none s = (s, [], [])
  read_fork_events has_writer (some records) s =
      let drained = drain fork_event_size read_fork_event records s in
      (drained.0, drained.1, written has_writer drained.1)
