-- ===== src/Collector/PrivEsc.antt =====
-- pkg/collector/privesc.go: the events of raised privileges.
use self_healing_kubernetes.Base.{
  ℕ, String, Bool, false, ◌||◌, Option, List, [], ◌∷◌, nat_eq, ◌==◌, string_Eq, if◌then◌else◌,
  Keyed, nat_Eq,
}
use self_healing_kubernetes.Base.Bytes.{Bytes, text, slice, little_endian}
use self_healing_kubernetes.ProcessGraph.Event.{EventEnvelope, Value, uint32}
use self_healing_kubernetes.Cgroup.Scan.{ContainerInfo}
use self_healing_kubernetes.Collector.{null_term_str, wall_time, container_name, drain, written}
use self_healing_kubernetes.Collector.Dns.{name_or_number}
use self_healing_kubernetes.Collector.Lineage.{LineageLookup, parent_comm}

pub record PrivescEventRaw : Type 0 where
  pub cgroup_id : ℕ
  pub ts_ns : ℕ
  pub tgid : ℕ
  pub ppid : ℕ
  pub comm : Bytes
  pub parent_comm_bytes : Bytes
  pub old_uid : ℕ
  pub new_uid : ℕ
  pub esc_type : ℕ
  pub cap : ℕ
  pub ptrace_pid : ℕ
  pub pad : ℕ

abbrev pub privesc_event_size : ℕ
privesc_event_size = 80

abbrev pub cap_names : Keyed ℕ String
cap_names =
    (0, "CAP_CHOWN")
    ∷ (1, "CAP_DAC_OVERRIDE")
    ∷ (2, "CAP_DAC_READ_SEARCH")
    ∷ (3, "CAP_FOWNER")
    ∷ (4, "CAP_FSETID")
    ∷ (5, "CAP_KILL")
    ∷ (6, "CAP_SETGID")
    ∷ (7, "CAP_SETUID")
    ∷ (8, "CAP_SETPCAP")
    ∷ (9, "CAP_LINUX_IMMUTABLE")
    ∷ (10, "CAP_NET_BIND_SERVICE")
    ∷ (11, "CAP_NET_BROADCAST")
    ∷ (12, "CAP_NET_ADMIN")
    ∷ (13, "CAP_NET_RAW")
    ∷ (14, "CAP_IPC_LOCK")
    ∷ (15, "CAP_IPC_OWNER")
    ∷ (16, "CAP_SYS_MODULE")
    ∷ (17, "CAP_SYS_RAWIO")
    ∷ (18, "CAP_SYS_CHROOT")
    ∷ (19, "CAP_SYS_PTRACE")
    ∷ (20, "CAP_SYS_PACCT")
    ∷ (21, "CAP_SYS_ADMIN")
    ∷ (22, "CAP_SYS_BOOT")
    ∷ (23, "CAP_SYS_NICE")
    ∷ (24, "CAP_SYS_RESOURCE")
    ∷ (25, "CAP_SYS_TIME")
    ∷ (26, "CAP_SYS_TTY_CONFIG")
    ∷ (27, "CAP_MKNOD")
    ∷ (28, "CAP_LEASE")
    ∷ (29, "CAP_AUDIT_WRITE")
    ∷ (30, "CAP_AUDIT_CONTROL")
    ∷ (31, "CAP_SETFCAP")
    ∷ []

abbrev pub esc_type_names : Keyed ℕ String
esc_type_names = (1, "setuid") ∷ (2, "setgid") ∷ (3, "ptrace") ∷ (4, "cap_capable") ∷ []

unfoldable pub parse_priv_esc_event : Bytes → PrivescEventRaw
parse_priv_esc_event bytes = record {
  cgroup_id = little_endian (slice 0 8 bytes);
  ts_ns = little_endian (slice 8 8 bytes);
  tgid = little_endian (slice 16 4 bytes);
  ppid = little_endian (slice 20 4 bytes);
  comm = slice 24 16 bytes;
  parent_comm_bytes = slice 40 16 bytes;
  old_uid = little_endian (slice 56 4 bytes);
  new_uid = little_endian (slice 60 4 bytes);
  esc_type = little_endian (slice 64 4 bytes);
  cap = little_endian (slice 68 4 bytes);
  ptrace_pid = little_endian (slice 72 4 bytes);
  pad = little_endian (slice 76 4 bytes);
}

-- The old identity is left out where it is the number that stands for none, 0xFFFFFFFF.
abbrev pub id_metadata : (old_key new_key : String) → (old new : ℕ) → Keyed String Value
id_metadata old_key new_key old new =
    if nat_eq old 0xFFFFFFFF
    then (new_key, uint32 new) ∷ []
    else (old_key, uint32 old) ∷ (new_key, uint32 new) ∷ []

-- `switch raw.EscType`
abbrev pub type_metadata : PrivescEventRaw → Keyed String Value
type_metadata raw =
    if nat_eq raw.esc_type 1
    then id_metadata "old_uid" "new_uid" raw.old_uid raw.new_uid
    else if nat_eq raw.esc_type 2
    then id_metadata "old_gid" "new_gid" raw.old_uid raw.new_uid
    else if nat_eq raw.esc_type 3
    then ("target_pid", uint32 raw.ptrace_pid) ∷ []
    else if nat_eq raw.esc_type 4
    then ("capability", Value.text (name_or_number cap_names "CAP_" raw.cap))
      ∷ ("capability_num", uint32 raw.cap)
      ∷ []
    else []

-- The lineage is asked where the parent's name is missing or is the process's own.
abbrev pub parent_or_lineage :
    Option LineageLookup → (cgroup_id ppid : ℕ) → (process parent : String) → String
parent_or_lineage lineage cgroup_id ppid process parent =
    if parent == "" || parent == process then parent_comm lineage cgroup_id ppid parent else parent

abbrev pub priv_esc_to_envelope :
    (boot_offset : ℕ) → Option LineageLookup → PrivescEventRaw → (name : String) → EventEnvelope
priv_esc_to_envelope boot_offset lineage raw name =
    let process = text (null_term_str raw.comm) in
    let parent = text (null_term_str raw.parent_comm_bytes) in
    record {
      timestamp = wall_time boot_offset raw.ts_ns;
      cgroup_id = raw.cgroup_id;
      container_name = name;
      pid = raw.tgid;
      ppid = raw.ppid;
      process = process;
      parent_process = parent_or_lineage lineage raw.cgroup_id raw.ppid process parent;
      event_type = "privilege_escalation";
      ancestry_truncated = false;
      metadata =
          ("container", Value.text name)
          ∷ ("escalation_type", Value.text (name_or_number esc_type_names "unknown_" raw.esc_type))
          ∷ type_metadata raw;
    }

module _ {S : Type 0} (resolve : ℕ → S → S × Option ContainerInfo) (boot_offset : ℕ)
    (lineage : Option LineageLookup) where
  abbrev pub read_priv_esc_event : Bytes → S → S × EventEnvelope
  read_priv_esc_event bytes s =
      let raw = parse_priv_esc_event bytes in
      let answer = resolve raw.cgroup_id s in
      (
        answer.0,
        priv_esc_to_envelope boot_offset lineage raw (container_name raw.cgroup_id answer.1),
      )

  unfoldable pub read_priv_esc_events :
      (has_writer : Bool) → List Bytes → S → S × List EventEnvelope × List EventEnvelope
  read_priv_esc_events has_writer records s =
      let drained = drain privesc_event_size read_priv_esc_event records s in
      (drained.0, drained.1, written has_writer drained.1)
