-- ===== src/Collector/Exec.antt =====
-- pkg/collector/exec.go: the events of executed programs.
pub mod Arguments
use self_healing_kubernetes.Base.{
  ℕ, ◌+◌, String, Bool, true, false, not, ◌||◌, Option, none, some, List, [], ◌∷◌, map, length,
  keep, take, ltb, nat_eq, if◌then◌else◌, Time,
}
use self_healing_kubernetes.Base.Bytes.{Bytes, text, slice, little_endian}
use self_healing_kubernetes.Base.Strings.{split, after_last}
use self_healing_kubernetes.ProcessGraph.Event.{EventEnvelope, Value, uint32, texts, flag}
use self_healing_kubernetes.Cgroup.Scan.{ContainerInfo}
use self_healing_kubernetes.Collector.{null_term_str, wall_time, container_name, drain, written}
use self_healing_kubernetes.Collector.Lineage.{LineageLookup, parent_comm}

abbrev pub exec_max_total_len : ℕ
exec_max_total_len = 2048

abbrev pub exec_path_len : ℕ
exec_path_len = 256

pub record ExecEventRaw : Type 0 where
  pub cgroup_id : ℕ
  pub ts_ns : ℕ
  pub tgid : ℕ
  pub ppid : ℕ
  pub path : Bytes
  pub argv : Bytes
  pub argv_count : ℕ
  pub argv_total_len : ℕ
  pub argv_truncated : ℕ
  pub path_truncated : ℕ

-- The size of the struct with its padding.
abbrev pub exec_event_size : ℕ
exec_event_size = 2344

unfoldable pub parse_exec_event : Bytes → ExecEventRaw
parse_exec_event bytes = record {
  cgroup_id = little_endian (slice 0 8 bytes);
  ts_ns = little_endian (slice 8 8 bytes);
  tgid = little_endian (slice 16 4 bytes);
  ppid = little_endian (slice 20 4 bytes);
  path = slice 24 256 bytes;
  argv = slice 280 2048 bytes;
  argv_count = little_endian (slice 2328 4 bytes);
  argv_total_len = little_endian (slice 2332 4 bytes);
  argv_truncated = little_endian (slice 2336 1 bytes);
  path_truncated = little_endian (slice 2337 1 bytes);
}

abbrev pub is_argument : Bytes → Bool
is_argument [] = false
is_argument (b ∷ bs) = true

-- The loop cuts at each zero and leaves out what is empty.
unfoldable pub decode_argv : Bytes → (total_len : ℕ) → List String
decode_argv buf total_len =
    if nat_eq total_len 0 || ltb (length buf) total_len
    then []
    else map text (keep is_argument (split 0 (take total_len buf)))

-- The name after the last slash of a path.
abbrev pub base_name : Bytes → Bytes
base_name path = elim (after_last 47 path) [ some name ↦ name | none ↦ path ]

abbrev pub exec_event_to_envelope :
    (boot_offset : ℕ) → Option LineageLookup → ExecEventRaw → (name : String) → EventEnvelope
exec_event_to_envelope boot_offset lineage raw name = record {
  timestamp = wall_time boot_offset raw.ts_ns;
  cgroup_id = raw.cgroup_id;
  container_name = name;
  pid = raw.tgid;
  ppid = raw.ppid;
  process = text (base_name (null_term_str raw.path));
  parent_process = parent_comm lineage raw.cgroup_id raw.ppid "";
  event_type = "exec";
  ancestry_truncated = false;
  metadata =
      ("container", Value.text name)
      ∷ ("full_path", Value.text (text (null_term_str raw.path)))
      ∷ ("argv", texts (decode_argv raw.argv raw.argv_total_len))
      ∷ ("argv_truncated", flag (nat_eq raw.argv_truncated 1))
      ∷ ("path_truncated", flag (nat_eq raw.path_truncated 1))
      ∷ ("arg_count", uint32 raw.argv_count)
      ∷ [];
}

module _ {S : Type 0} (resolve : ℕ → S → S × Option ContainerInfo) (boot_offset : ℕ)
    (lineage : Option LineageLookup) where
  abbrev pub read_exec_event : Bytes → S → S × EventEnvelope
  read_exec_event bytes s =
      let raw = parse_exec_event bytes in
      let answer = resolve raw.cgroup_id s in
      (
        answer.0,
        exec_event_to_envelope boot_offset lineage raw (container_name raw.cgroup_id answer.1),
      )

  unfoldable pub read_exec_events :
      (has_writer : Bool) → List Bytes → S → S × List EventEnvelope × List EventEnvelope
  read_exec_events has_writer records s =
      let drained = drain exec_event_size read_exec_event records s in
      (drained.0, drained.1, written has_writer drained.1)
