-- ===== src/Collector/Tests.antt =====
-- A resolver with one container, short maps of the kernel and a tree of two processes.
use self_healing_kubernetes.Base.{
  ℕ, ◌+◌, ◌≤◌, ◌≡◌, ◌/◌, refl, String, true, false, Option, none, some, List, [], ◌∷◌, ◌++◌, map,
  arith, length, nat_eq, leb, if◌then◌else◌, keep, replicate, tally, take, Keyed, lookup, insert,
  Distinct, nat_Eq, ◌-◌,
}
use self_healing_kubernetes.Base.Bytes.{Bytes, codes, text, decimal}
use self_healing_kubernetes.Cgroup.Scan.{ContainerInfo, World}
use self_healing_kubernetes.Cgroup.Resolver.{Resolver, empty_resolver, lookup_cgroup, known}
use self_healing_kubernetes.Collector.{resolve_with, drain, null_term_str}
use self_healing_kubernetes.Collector.Polling.{Floats, last_value, poll}
use self_healing_kubernetes.Collector.Lineage.{
  LineageKey, LineageEntryBpf, Tree, ForkEventRaw, ancestors, read_fork_events, lineage_key_Eq,
  lineage_lookup,
}
use self_healing_kubernetes.Collector.Lineage.Ancestry.{ancestors-whole}
use self_healing_kubernetes.Collector.Lineage.Layout.{IsForkEvent}
use self_healing_kubernetes.Collector.Lineage.Reading.{
  RingRecord, short, whole, ring_bytes, wholes, fork_of, raw_fork, read_fork_events_lem,
}
use self_healing_kubernetes.Collector.Exec.{decode_argv, is_argument}
use self_healing_kubernetes.Collector.Exec.Arguments.{packed, decode_argv-packed}
use self_healing_kubernetes.Collector.Escape.{EscapeEventRaw, escape_to_envelope, decode_ns_flags}
use self_healing_kubernetes.Collector.Escape.Parent.{escape_to_envelope-parent}
use self_healing_kubernetes.Collector.Io as Io
use self_healing_kubernetes.Collector.Lineage as Lineage
use self_healing_kubernetes.Collector.Io.{IoStats, IoCollector, zero_stats}
use self_healing_kubernetes.Collector.Io.Latency.{collect-latency}
use self_healing_kubernetes.Collector.Cpu as Cpu
use self_healing_kubernetes.Collector.Cpu.{CpuStats, CpuCollector}
use self_healing_kubernetes.Collector.Cpu.Deltas.{is_known, if_known, collect-remembers}
use self_healing_kubernetes.Collector.Memory.Queue.{receives, takes, run, events_of, run-once}
use self_healing_kubernetes.Collector.Network.{ConnSample, summarise}
use self_healing_kubernetes.Collector.Network.Summary.{
  flows_in, states_in, retransmits_in, retransmits_of, summarise-counts,
}
use self_healing_kubernetes.Collector.Syscall.{SyscallSummary}
use self_healing_kubernetes.Collector.Syscall.Ranking.{Falling}

-- Whole numbers in place of `float64`.
abbrev floats : Floats
floats = record {
  Float = ℕ;
  from_nat = λ n. n;
  add = λ a b. a + b;
  divide = λ a b. a / b;
  at_most = λ a b. leb a b;
  seconds = λ now prev. (now - prev) / 1_000_000_000;
  age = λ now first. now - first;
}

abbrev info : ContainerInfo
info = record {
  cgroup_id = 7;
  name = codes "web";
  cgroup_path = [];
  namespace = [];
  pod = [];
  container = [];
}

abbrev known_info : ℕ → Option ContainerInfo
known_info id = if nat_eq id 7 then some info else none

-- The state counts the lookups.
abbrev resolve : ℕ → ℕ → ℕ × Option ContainerInfo
resolve id n = (n + 1, known_info id)

-- A name of a process in its 16 bytes.
abbrev padded : String → Bytes
padded name = take 16 (codes name ++ replicate 16 0)

abbrev entry_of : (ppid : ℕ) → String → LineageEntryBpf
entry_of ppid name = record {
  ppid = ppid;
  cgroup_id = 7;
  comm = padded name;
  fork_ts_ns = 100;
  comm_final = 1;
}

abbrev key_of : ℕ → LineageKey
key_of tgid = record { cgroup_id = 7; tgid = tgid }

abbrev tree : Tree
tree = (key_of 20, entry_of 10 "sh") ∷ (key_of 10, entry_of 1 "init-app") ∷ []

ancestors-whole_example :
    (length (ancestors 0 tree 7 20 2).0 ≤ 2)
    × ((ancestors 0 tree 7 20 2).1 ≡ false
        → (ancestors 0 tree 7 20 8).0 ≡ (ancestors 0 tree 7 20 2).0)
ancestors-whole_example = ancestors-whole 0 tree 7 20 1 7 (omega arith)

abbrev fork_event : ForkEventRaw
fork_event = record {
  cgroup_id = 7;
  fork_ts_ns = 500;
  ppid = 10;
  tgid = 20;
  parent_comm = padded "init-app";
  child_comm = padded "sh";
  comm_final = 0;
}

fork_event-IsForkEvent : IsForkEvent fork_event
fork_event-IsForkEvent = record {
  cgroup_id_fits = omega arith;
  fork_ts_ns_fits = omega arith;
  ppid_fits = omega arith;
  tgid_fits = omega arith;
  parent_comm_fits = refl;
  child_comm_fits = refl;
  comm_final_fits = omega arith;
}

abbrev ring : List RingRecord
ring = short (1 ∷ 2 ∷ []) ∷ whole fork_event (replicate 9 0) ∷ []

read_fork_events_lem_example :
    map fork_of (read_fork_events resolve 1000 true (some (map ring_bytes ring)) 0).1
    ≡ map (raw_fork 1000) (wholes ring)
read_fork_events_lem_example =
    read_fork_events_lem resolve 1000 true ring 0
      (omega arith, ((fork_event-IsForkEvent, omega arith), tt))

abbrev arguments : List Bytes
arguments = codes "ls" ∷ [] ∷ codes "-l" ∷ []

decode_argv-packed_example :
    decode_argv (packed arguments ++ replicate 4 0) (length (packed arguments))
    ≡ map text (keep is_argument arguments)
decode_argv-packed_example =
    decode_argv-packed arguments (replicate 4 0)
      ((ground arith, (ground arith, tt)), (tt, ((ground arith, (ground arith, tt)), tt)))

abbrev escape_event : EscapeEventRaw
escape_event = record {
  cgroup_id = 7;
  ts_ns = 900;
  tgid = 20;
  ppid = 10;
  comm = padded "sh";
  parent_comm = padded "init-app";
  indicator_type = 2;
  ns_flags = 0x10000000;
}

tree_entry : lookup (key_of 20) tree ≡ some (entry_of 10 "sh")
unfolding lookup
tree_entry = refl

escape_to_envelope-parent_example :
    (escape_to_envelope
      (λ names. names)
      0
      (some (lineage_lookup 0 tree))
      escape_event
      "web").parent_process
    ≡ text (null_term_str (padded "sh"))
escape_to_envelope-parent_example =
    escape_to_envelope-parent 0 tree (λ names. names) escape_event "web" (entry_of 10 "sh")
      tree_entry

abbrev io_stats : ℕ → IoStats
io_stats latency = record {
  read_bytes = 10;
  write_bytes = 20;
  read_ios = 1;
  write_ios = 2;
  read_latency_ns = latency;
  write_latency_ns = latency;
}

abbrev io_map : Keyed ℕ IoStats
io_map = (7, io_stats 100) ∷ (9, io_stats 5) ∷ []

abbrev io_collector : IoCollector floats
io_collector = record { prev = []; prev_at = 0 }

-- The remembered latency of cgroup 7 is that of cgroup 9.
io_prev :
    lookup 7 (Io.collect floats resolve 1000 false io_map io_collector 0).collector.prev
    ≡ some (io_stats 5)
unfolding Io.collect Io.next_prev poll lookup insert
io_prev = refl

collect-latency_example :
    ((io_stats 5).read_latency_ns ≡ (last_value io_map zero_stats).read_latency_ns)
    × ((io_stats 5).write_latency_ns ≡ (last_value io_map zero_stats).write_latency_ns)
collect-latency_example =
    collect-latency floats resolve 1000 io_map io_collector 0 7 (io_stats 5) io_prev

abbrev cpu_stats : CpuStats
cpu_stats = record { total_ns = 1000; runq_latency_ns = 10; ctx_switches = 3; thread_count = 4 }

abbrev cpu_map : Keyed ℕ CpuStats
cpu_map = (7, cpu_stats) ∷ (9, cpu_stats) ∷ []

abbrev cpu_collector : CpuCollector floats
cpu_collector = record { prev = []; prev_at = 0 }

cpu_map-Distinct : Distinct cpu_map
unfolding Distinct lookup
cpu_map-Distinct = (refl, (refl, tt))

abbrev no_numa : Bytes → ℕ × ℕ
no_numa path = (100, 0)

collect-remembers_example :
    (lookup 9 (Cpu.collect floats resolve no_numa 1000 false cpu_map cpu_collector 0).collector.prev
      ≡ if_known (is_known (known_info 9)) (lookup 9 cpu_map))
    × (lookup 9 (Cpu.collect floats resolve no_numa 1000 false cpu_map cpu_collector 0).cpu_map
        ≡ (if is_known (known_info 9) then lookup 9 cpu_map else none))
collect-remembers_example =
    collect-remembers floats resolve no_numa known_info 1000 cpu_collector cpu_map 0 9
      (λ id s. refl) cpu_map-Distinct

abbrev no_files : Bytes → Bytes → Option Bytes
no_files path filename = none

run-once_example :
    (run no_files resolve (receives 100 (replicate 40 1) ∷ takes ∷ receives 200 [] ∷ []) (0, [])).0
      ++ (run no_files resolve
          (receives 100 (replicate 40 1) ∷ takes ∷ receives 200 [] ∷ [])
          (0, [])).1
    ≡ events_of no_files resolve (receives 100 (replicate 40 1) ∷ takes ∷ receives 200 [] ∷ []) 0
run-once_example =
    run-once no_files resolve (receives 100 (replicate 40 1) ∷ takes ∷ receives 200 [] ∷ []) 0

abbrev flow : (state : String) → ConnSample floats
flow state = record {
  cgroup_id = 7;
  container_name = "web";
  saddr = "10.0.0.1";
  daddr = "10.0.0.2";
  sport = 80;
  dport = 4000;
  state = state;
  retransmits = 3;
  age_seconds = 1;
}

abbrev flows : List (ConnSample floats)
flows = flow "ESTABLISHED" ∷ flow "LISTEN" ∷ flow "CLOSING" ∷ []

summarise-counts_example :
    (flows_in floats (lookup 7 (summarise floats flows []))
      ≡ tally (λ f. nat_eq f.cgroup_id 7) flows)
    × (states_in floats (lookup 7 (summarise floats flows []))
        ≡ tally (λ f. nat_eq f.cgroup_id 7) flows)
    × (retransmits_in floats (lookup 7 (summarise floats flows []))
        ≡ retransmits_of floats 7 flows 0)
summarise-counts_example = summarise-counts floats flows 7

abbrev call_counts : (count : ℕ) → SyscallSummary floats
call_counts count = record {
  container_name = "web";
  syscall_id = 0;
  name = "read";
  count = count;
  failures = 0;
  avg_latency_ms = 0;
  rank = 0;
}

abbrev calls : List (SyscallSummary floats)
calls =
    call_counts 9
    ∷ call_counts 8
    ∷ call_counts 6
    ∷ call_counts 6
    ∷ call_counts 3
    ∷ call_counts 1
    ∷ []

calls-Falling : Falling floats calls
calls-Falling = ground arith

flags_test : decode_ns_flags (λ names. names) 0x30000000 2 ≡ "CLONE_NEWUSER|CLONE_NEWPID"
unfolding decode_ns_flags
flags_test = refl

decimal_test : decimal 1234 ≡ "1234"
unfolding text
decimal_test = refl

abbrev resolver : Resolver
resolver = record empty_resolver { cache = some ((7, info) ∷ []) }

abbrev no_world : World
no_world = record {
  tasks = none;
  http = none;
  https = none;
  docker_name = λ id. [];
  visits = [];
  range_groups = λ groups. [];
  range_history = λ m. [];
}

-- The fork event of a container that the resolver knows has its name.
fork_event_name :
    map
      (λ e. e.container_name)
      (read_fork_events
        (resolve_with (λ n. (n, no_world)))
        1000
        true
        (some (map ring_bytes ring))
        (resolver, 0)).1
    ≡ "web" ∷ []
unfolding read_fork_events drain Lineage.parse_fork_event text lookup_cgroup known lookup
fork_event_name = refl
