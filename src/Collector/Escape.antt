-- ===== src/Collector/Escape.antt =====
-- pkg/collector/escape.go: the events that indicate an escape from a container.
pub mod Parent
use Prim.Native.Nat.{bit_and}
use self_healing_kubernetes.Base.{
  ℕ, zero, suc, ◌+◌, ◌%◌, ◌/◌, String, ◌<>◌, Bool, true, false, ◌||◌, Option, none, some, List, [],
  ◌∷◌, ◌++◌, length, nat_eq, ltb, any, ◌==◌, string_Eq, if◌then◌else◌, Keyed, nat_Eq,
}
use self_healing_kubernetes.Base.Bytes.{Bytes, text, slice, little_endian, decimal}
use self_healing_kubernetes.ProcessGraph.Event.{EventEnvelope, Value, uint32, flag}
use self_healing_kubernetes.Cgroup.Scan.{ContainerInfo}
use self_healing_kubernetes.Collector.{null_term_str, wall_time, container_name, drain, written}
use self_healing_kubernetes.Collector.Lineage.{LineageEntry, LineageLookup, max_ancestor_depth}

abbrev pub ind_mount : ℕ
ind_mount = 1

abbrev pub ind_unshare : ℕ
ind_unshare = 2

abbrev pub ind_pivot_root : ℕ
ind_pivot_root = 3

abbrev pub ns_flag_names : Keyed ℕ String
ns_flag_names =
    (131072, "CLONE_NEWNS")
    ∷ (67108864, "CLONE_NEWUTS")
    ∷ (134217728, "CLONE_NEWIPC")
    ∷ (268435456, "CLONE_NEWUSER")
    ∷ (536870912, "CLONE_NEWPID")
    ∷ (1073741824, "CLONE_NEWNET")
    ∷ []

abbrev pub mount_flag_names : Keyed ℕ String
mount_flag_names =
    (1, "MS_RDONLY")
    ∷ (2, "MS_NOSUID")
    ∷ (4, "MS_NODEV")
    ∷ (8, "MS_NOEXEC")
    ∷ (16, "MS_SYNCHRONOUS")
    ∷ (32, "MS_REMOUNT")
    ∷ (64, "MS_MANDLOCK")
    ∷ (128, "MS_DIRSYNC")
    ∷ (1024, "MS_NOATIME")
    ∷ (2048, "MS_NODIRATIME")
    ∷ (4096, "MS_BIND")
    ∷ (8192, "MS_MOVE")
    ∷ (16384, "MS_REC")
    ∷ []

abbrev pub known_runtimes : List String
known_runtimes =
    "containerd-shim" ∷ "containerd-shim-runc-v2" ∷ "runc" ∷ "dockerd" ∷ "crio" ∷ "crun" ∷ "podman"
    ∷ []

pub record EscapeEventRaw : Type 0 where
  pub cgroup_id : ℕ
  pub ts_ns : ℕ
  pub tgid : ℕ
  pub ppid : ℕ
  pub comm : Bytes
  pub parent_comm : Bytes
  pub indicator_type : ℕ
  pub ns_flags : ℕ

-- The size of the struct with its padding.
abbrev pub escape_event_size : ℕ
escape_event_size = 72

unfoldable pub parse_escape_event : Bytes → EscapeEventRaw
parse_escape_event bytes = record {
  cgroup_id = little_endian (slice 0 8 bytes);
  ts_ns = little_endian (slice 8 8 bytes);
  tgid = little_endian (slice 16 4 bytes);
  ppid = little_endian (slice 20 4 bytes);
  comm = slice 24 16 bytes;
  parent_comm = slice 40 16 bytes;
  indicator_type = little_endian (slice 56 4 bytes);
  ns_flags = little_endian (slice 60 4 bytes);
}

-- The loop over the names, which joins those of the flags that are set.
abbrev pub join_flags : (flags : ℕ) → Keyed ℕ String → (result : String) → String
join_flags flags [] result = result
join_flags flags ((bit, name) ∷ names) result = join_flags flags names (
    if nat_eq (bit_and flags bit) 0
    then result
    else if result == ""
    then name
    else result <> ("|" <> name))

abbrev pub hex_digit : ℕ → ℕ
hex_digit d = if ltb d 10 then 48 + d else 87 + d

-- `%08x`: the digits of a number of 32 bits.
abbrev pub hex_digits : (count : ℕ) → ℕ → Bytes
hex_digits zero n = []
hex_digits (suc count) n = hex_digits count (n / 16) ++ (hex_digit (n % 16) ∷ [])

-- `range_names` is the order in which Go ranges over a map.
unfoldable pub decode_ns_flags :
    (range_names : Keyed ℕ String → Keyed ℕ String) → (flags ind_type : ℕ) → String
decode_ns_flags range_names flags ind_type =
    let names = if nat_eq ind_type ind_mount then mount_flag_names else ns_flag_names in
    let result = join_flags flags (range_names names) "" in
    if nat_eq flags 0
    then ""
    else if result == ""
    then "0x" <> text (hex_digits 8 flags)
    else result

abbrev pub indicator_type_name : ℕ → String
indicator_type_name t =
    if nat_eq t ind_mount
    then "mount"
    else if nat_eq t ind_unshare
    then "unshare"
    else if nat_eq t ind_pivot_root
    then "pivot_root"
    else "unknown_" <> decimal t

-- `ancestors[len(ancestors)-1].Comm`, or what the kernel gave where there are none.
abbrev pub last_comm : List LineageEntry → (parent : String) → String
last_comm [] parent = parent
last_comm (e ∷ entries) parent = last_comm entries e.comm

abbrev pub asked_ancestors : Option LineageLookup → (cgroup_id tgid : ℕ) → List LineageEntry × Bool
asked_ancestors none cgroup_id tgid = ([], false)
asked_ancestors (some lineage) cgroup_id tgid =
    lineage.ancestors_of cgroup_id tgid max_ancestor_depth

abbrev pub is_runtime : String → Bool
is_runtime name = any (λ runtime. runtime == name) known_runtimes

module _ (range_names : Keyed ℕ String → Keyed ℕ String) (boot_offset : ℕ)
    (lineage : Option LineageLookup) where
  unfoldable pub escape_to_envelope : EscapeEventRaw → (name : String) → EventEnvelope
  escape_to_envelope raw name =
      let process = text (null_term_str raw.comm) in
      let parent = text (null_term_str raw.parent_comm) in
      let ancestry = asked_ancestors lineage raw.cgroup_id raw.tgid in
      record {
        timestamp = wall_time boot_offset raw.ts_ns;
        cgroup_id = raw.cgroup_id;
        container_name = name;
        pid = raw.tgid;
        ppid = raw.ppid;
        process = process;
        parent_process = last_comm ancestry.0 parent;
        event_type = "escape_indicator";
        ancestry_truncated = ancestry.1;
        metadata =
            ("container", Value.text name)
            ∷ ("indicator_type", Value.text (indicator_type_name raw.indicator_type))
            ∷ (
              "namespace_flags",
              Value.text (decode_ns_flags range_names raw.ns_flags raw.indicator_type),
            )
            ∷ ("ns_flags_raw", uint32 raw.ns_flags)
            ∷ ("runtime_initiated", flag (is_runtime process || is_runtime parent))
            ∷ [];
      }

module _ {S : Type 0} (resolve : ℕ → S → S × Option ContainerInfo)
    (range_names : Keyed ℕ String → Keyed ℕ String) (boot_offset : ℕ)
    (lineage : Option LineageLookup) where
  abbrev pub read_escape_event : Bytes → S → S × EventEnvelope
  read_escape_event bytes s =
      let raw = parse_escape_event bytes in
      let answer = resolve raw.cgroup_id s in
      (
        answer.0,
        escape_to_envelope range_names boot_offset lineage raw
            (container_name raw.cgroup_id answer.1),
      )

  unfoldable pub read_escape_events :
      (has_writer : Bool) → List Bytes → S → S × List EventEnvelope × List EventEnvelope
  read_escape_events has_writer records s =
      let drained = drain escape_event_size read_escape_event records s in
      (drained.0, drained.1, written has_writer drained.1)
