-- ===== src/Collector/Syscall.antt =====
-- pkg/collector/syscall.go: the counts of the system calls of the containers, the five most frequent of each
-- and the slow ones.
pub mod Names
pub mod Ranking
use self_healing_kubernetes.Base.{
  ℕ, zero, suc, ◌+◌, ◌≡◌, ◌↔◌, String, Bool, true, false, not, ◌&&◌, Option, none, some, List, [],
  ◌∷◌, ◌++◌, map, take, arith, length, ltb, nat_eq, Eq, ◌==◌, string_Eq, if◌then◌else◌, Keyed,
  lookup, insert, nat_Eq,
}
use self_healing_kubernetes.Base.Bytes.{Bytes, text, slice, little_endian}
use self_healing_kubernetes.Cgroup.Scan.{ContainerInfo}
use self_healing_kubernetes.Collector.{null_term_str, container_name, drain}
use self_healing_kubernetes.Collector.Polling.{Floats, over, Polled, poll, delete_keys}
use self_healing_kubernetes.Collector.Syscall.Names.{syscall_name}

pub record SyscallStats : Type 0 where
  pub count : ℕ
  pub failures : ℕ
  pub total_latency_ns : ℕ

pub record SyscallKey : Type 0 where
  pub cgroup_id : ℕ
  pub syscall_id : ℕ
  pub pad : ℕ

abbrev pub syscall_key_beq : SyscallKey → SyscallKey → Bool
syscall_key_beq a b =
    nat_eq a.cgroup_id b.cgroup_id && nat_eq a.syscall_id b.syscall_id && nat_eq a.pad b.pad

pub syscall_key_beq_iff : (a b : SyscallKey) → (syscall_key_beq a b ≡ true) ↔ (a ≡ b)
syscall_key_beq_iff a b = (ground arith, ground arith)

instance abbrev pub syscall_key_Eq : Eq SyscallKey
syscall_key_Eq = record { equal = syscall_key_beq; equal_iff = syscall_key_beq_iff }

pub record SlowSyscallEventRaw : Type 0 where
  pub cgroup_id : ℕ
  pub pid : ℕ
  pub syscall_id : ℕ
  pub latency_ns : ℕ
  pub comm : Bytes

abbrev pub slow_syscall_size : ℕ
slow_syscall_size = 40

abbrev pub parse_slow_syscall : Bytes → SlowSyscallEventRaw
parse_slow_syscall bytes = record {
  cgroup_id = little_endian (slice 0 8 bytes);
  pid = little_endian (slice 8 4 bytes);
  syscall_id = little_endian (slice 12 4 bytes);
  latency_ns = little_endian (slice 16 8 bytes);
  comm = slice 24 16 bytes;
}

module _ (floats : Floats) where
  open floats use {Float}

  pub record SyscallSummary : Type 0 where
    pub container_name : String
    pub syscall_id : ℕ
    pub name : String
    pub count : ℕ
    pub failures : ℕ
    pub avg_latency_ms : Float
    pub rank : ℕ

  abbrev pub average_ms : SyscallStats → Float
  average_ms stats =
      if ltb 0 stats.count
      then floats.divide (over floats stats.total_latency_ns (floats.from_nat stats.count))
          (floats.from_nat 1_000_000)
      else floats.from_nat 0

  abbrev pub summary_of :
      {S : Type 0} → SyscallKey → SyscallStats → ContainerInfo → S → S × SyscallSummary
  summary_of key stats info s = (
    s,
    record {
      container_name = text info.name;
      syscall_id = key.syscall_id;
      name = syscall_name key.syscall_id;
      count = stats.count;
      failures = stats.failures;
      avg_latency_ms = average_ms stats;
      rank = 0;
    },
  )

  -- The summaries of each container, in their order.
  abbrev pub or_empty : Option (List SyscallSummary) → List SyscallSummary
  or_empty none = []
  or_empty (some entries) = entries

  unfoldable pub group :
      List SyscallSummary → Keyed String (List SyscallSummary) → Keyed String (List SyscallSummary)
  group [] groups = groups
  group (s ∷ all) groups =
      group all
        (insert s.container_name (or_empty (lookup s.container_name groups) ++ s ∷ []) groups)

  unfoldable pub stamp_ranks : (i : ℕ) → List SyscallSummary → List SyscallSummary
  stamp_ranks i [] = []
  stamp_ranks i (s ∷ entries) = record s { rank = i + 1 } ∷ stamp_ranks (i + 1) entries

  -- `sort_by_count` and `sort_for_display` are the calls of `sort.Slice`, whose order of equal elements is
  -- not specified: by the count downwards, and by the container's name and the rank.
  module _ (sort_by_count sort_for_display : List SyscallSummary → List SyscallSummary) where
    unfoldable pub top_five : List SyscallSummary → List SyscallSummary
    top_five entries =
        let sorted = sort_by_count entries in
        stamp_ranks 0 (if ltb 5 (length sorted) then take 5 sorted else sorted)

    unfoldable pub all_tops : List (String × List SyscallSummary) → List SyscallSummary
    all_tops [] = []
    all_tops ((name, entries) ∷ groups) = top_five entries ++ all_tops groups

    -- `range_groups` is the order in which Go ranges over a map.
    unfoldable pub top_of_each :
        (range_groups : Keyed String (List SyscallSummary) → List (String × List SyscallSummary))
        → List SyscallSummary
        → List SyscallSummary
    top_of_each range_groups all = sort_for_display (all_tops (range_groups (group all [])))

  module _ {S : Type 0} (resolve : ℕ → S → S × Option ContainerInfo) where
    pub record Summaries : Type 0 where
      pub state : S
      pub stats_map : Keyed SyscallKey SyscallStats
      pub summaries : Option (List SyscallSummary)

    -- `fails` is the error of the walk, after the entries that it gave.
    unfoldable pub collect : (fails : Bool) → Keyed SyscallKey SyscallStats → S → Summaries
    collect fails stats_map s =
        let polled = poll resolve (λ key. key.cgroup_id) summary_of stats_map s in
        if fails
        then record { state = polled.state; stats_map = stats_map; summaries = none }
        else record {
          state = polled.state;
          stats_map = delete_keys polled.to_delete stats_map;
          summaries = some polled.samples;
        }

    unfoldable pub collect_top5_per_container :
        (sort_by_count sort_for_display : List SyscallSummary → List SyscallSummary)
        (range_groups : Keyed String (List SyscallSummary) → List (String × List SyscallSummary))
        → (fails : Bool) → Keyed SyscallKey SyscallStats
        → S
        → Option (List SyscallSummary)
    collect_top5_per_container sort_by_count sort_for_display range_groups fails stats_map s =
        elim (collect fails stats_map s).summaries [
          | none ↦ none
          | some all ↦ some (top_of_each sort_by_count sort_for_display range_groups all)
        ]

  pub record SlowSyscallSummary : Type 0 where
    pub container_name : String
    pub pid : ℕ
    pub syscall_id : ℕ
    pub name : String
    pub latency_ms : Float
    pub comm : String

  module _ {S : Type 0} (resolve : ℕ → S → S × Option ContainerInfo) where
    abbrev pub read_slow_event : Bytes → S → S × SlowSyscallSummary
    read_slow_event bytes s =
        let raw = parse_slow_syscall bytes in
        let answer = resolve raw.cgroup_id s in
        (
          answer.0,
          record {
            container_name = container_name raw.cgroup_id answer.1;
            pid = raw.pid;
            syscall_id = raw.syscall_id;
            name = syscall_name raw.syscall_id;
            latency_ms = over floats raw.latency_ns (floats.from_nat 1_000_000);
            comm = text (null_term_str raw.comm);
          },
        )

    unfoldable pub read_slow_events : List Bytes → S → S × List SlowSyscallSummary
    read_slow_events records s = drain slow_syscall_size read_slow_event records s
