-- ===== src/Collector/Memory.antt =====
-- pkg/collector/memory.go: the samples of page faults and the queue of out-of-memory kills.
pub mod Queue
use self_healing_kubernetes.Base.{
  ℕ, ◌+◌, ◌^◌, String, Bool, true, false, not, ◌&&◌, Option, none, some, List, [], ◌∷◌, ◌++◌, all,
  length, ltb, leb, if◌then◌else◌, Keyed, lookup, insert, nat_Eq, Time,
}
use self_healing_kubernetes.Base.Bytes.{Bytes, text, codes, slice, little_endian, read_digits}
use self_healing_kubernetes.Base.Strings.{bytes_eq}
use self_healing_kubernetes.Cgroup.Scan.{ContainerInfo}
use self_healing_kubernetes.Collector.{null_term_str, saturating_sub, container_name}
use self_healing_kubernetes.Collector.Polling.{Floats, elapsed, over, Polled, poll, delete_keys}

pub record PfStats : Type 0 where
  pub minor_faults : ℕ
  pub major_faults : ℕ

pub record OomEventRaw : Type 0 where
  pub cgroup_id : ℕ
  pub victim_pid : ℕ
  pub oom_score_adj : ℕ
  pub pages : ℕ
  pub comm : Bytes

-- The score is the 32-bit pattern of an int32.
pub record OomEvent : Type 0 where
  pub timestamp : Time
  pub cgroup_id : ℕ
  pub container_name : String
  pub victim_pid : ℕ
  pub oom_score_adj : ℕ
  pub pages : ℕ
  pub comm : String
  pub memory_bytes : ℕ
  pub memory_limit_bytes : ℕ
  pub swap_bytes : ℕ

abbrev pub oom_event_size : ℕ
oom_event_size = 40

unfoldable pub parse_oom_event : Bytes → OomEventRaw
parse_oom_event bytes = record {
  cgroup_id = little_endian (slice 0 8 bytes);
  victim_pid = little_endian (slice 8 4 bytes);
  oom_score_adj = little_endian (slice 12 4 bytes);
  pages = little_endian (slice 16 8 bytes);
  comm = slice 24 16 bytes;
}

abbrev pub is_digit : ℕ → Bool
is_digit c = leb 48 c && leb c 57

-- `strconv.ParseUint(s, 10, 64)`
unfoldable pub parse_uint : Bytes → Option ℕ
parse_uint [] = none
parse_uint (c ∷ s) =
    if all is_digit (c ∷ s) && ltb (read_digits 0 (c ∷ s)) (2 ^ 64)
    then some (read_digits 0 (c ∷ s))
    else none

-- `contents` is a file of a cgroup without the white space around it, or `none` where it cannot be read.
module _ (contents : (cgroup_path filename : Bytes) → Option Bytes) where
  unfoldable pub read_cgroup_uint64 : (cgroup_path filename : Bytes) → ℕ
  read_cgroup_uint64 cgroup_path filename = elim (contents cgroup_path filename) [
    | none ↦ 0
    | some s ↦ if bytes_eq s (codes "max") then 0 else elim (parse_uint s) [ none ↦ 0 | some v ↦ v ]
  ]

  -- The kill with what the cgroup's files say, where its path is known.
  abbrev pub with_memory : Option ContainerInfo → OomEvent → OomEvent
  with_memory none e = e
  with_memory (some info) e = if bytes_eq info.cgroup_path [] then e else record e {
    memory_bytes = read_cgroup_uint64 info.cgroup_path (codes "memory.current");
    memory_limit_bytes = read_cgroup_uint64 info.cgroup_path (codes "memory.max");
    swap_bytes = read_cgroup_uint64 info.cgroup_path (codes "memory.swap.current");
  }

  abbrev pub oom_event : (now : Time) → OomEventRaw → Option ContainerInfo → OomEvent
  oom_event now raw info = with_memory info (record {
    timestamp = now;
    cgroup_id = raw.cgroup_id;
    container_name = container_name raw.cgroup_id info;
    victim_pid = raw.victim_pid;
    oom_score_adj = raw.oom_score_adj;
    pages = raw.pages;
    comm = text (null_term_str raw.comm);
    memory_bytes = 0;
    memory_limit_bytes = 0;
    swap_bytes = 0;
  })

  module _ {S : Type 0} (resolve : ℕ → S → S × Option ContainerInfo) where
    -- One turn of the loop of the reader with a record: the resolver's state and the queue.
    unfoldable pub receive : (now : Time) → Bytes → S × List OomEvent → S × List OomEvent
    receive now bytes (s, queue) =
        let raw = parse_oom_event bytes in
        let answer = resolve raw.cgroup_id s in
        if ltb (length bytes) oom_event_size
        then (s, queue)
        else (answer.0, queue ++ oom_event now raw answer.1 ∷ [])

-- `ReadOOMEvents`: the events, and the queue after it.
unfoldable pub read_oom_events : List OomEvent → List OomEvent × List OomEvent
read_oom_events queue = (queue, [])

module _ (floats : Floats) where
  open floats use {Float}

  pub record MemSample : Type 0 where
    pub cgroup_id : ℕ
    pub container_name : String
    pub minor_faults : ℕ
    pub major_faults : ℕ
    pub minor_per_sec : Float
    pub major_per_sec : Float
    pub faults_per_sec : Float
    pub memory_bytes : ℕ
    pub memory_limit_bytes : ℕ
    pub virt_bytes : ℕ
    pub pss_bytes : ℕ
    pub shared_bytes : ℕ
    pub psi_some : Float
    pub psi_full : Float
    pub tlb_miss_rate : Float
    pub collected_at : Time

  pub record MemoryCollector : Type 0 where
    pub rich_mem : Bool
    pub prev : Keyed ℕ PfStats
    pub prev_at : Time

  abbrev pub bare_sample : (now : Time) → ℕ → PfStats → (name : String) → MemSample
  bare_sample now id val name = record {
    cgroup_id = id;
    container_name = name;
    minor_faults = val.minor_faults;
    major_faults = val.major_faults;
    minor_per_sec = floats.from_nat 0;
    major_per_sec = floats.from_nat 0;
    faults_per_sec = floats.from_nat 0;
    memory_bytes = 0;
    memory_limit_bytes = 0;
    virt_bytes = 0;
    pss_bytes = 0;
    shared_bytes = 0;
    psi_some = floats.from_nat 0;
    psi_full = floats.from_nat 0;
    tlb_miss_rate = floats.from_nat 0;
    collected_at = now;
  }

  abbrev pub with_rates :
      (seconds : Float) → (val : PfStats) → Option PfStats → MemSample → MemSample
  with_rates seconds val none sample = sample
  with_rates seconds val (some prev) sample =
      let minor = over floats (saturating_sub val.minor_faults prev.minor_faults) seconds in
      let major = over floats (saturating_sub val.major_faults prev.major_faults) seconds in
      record sample {
        minor_per_sec = minor;
        major_per_sec = major;
        faults_per_sec = floats.add minor major;
        tlb_miss_rate = minor;
      }

  unfoldable pub next_prev : List MemSample → Keyed ℕ PfStats → Keyed ℕ PfStats
  next_prev [] prev = prev
  next_prev (s ∷ samples) prev = next_prev samples (
      insert s.cgroup_id (record { minor_faults = s.minor_faults; major_faults = s.major_faults })
        prev)

  -- `pressure` and `proc_stats` read the files of a cgroup and of its processes: the pressure on memory,
  -- and the virtual, proportional and shared sizes.
  module _ {S : Type 0} (resolve : ℕ → S → S × Option ContainerInfo)
      (contents : (cgroup_path filename : Bytes) → Option Bytes) (pressure : Bytes → Float × Float)
      (proc_stats : Bytes → ℕ × ℕ × ℕ) where
    abbrev pub with_proc : (rich_mem : Bool) → (path : Bytes) → MemSample → MemSample
    with_proc rich_mem path sample =
        let (virt, pss, shared) = proc_stats path in
        if rich_mem
        then record sample { virt_bytes = virt; pss_bytes = pss; shared_bytes = shared }
        else sample

    abbrev pub with_files : (rich_mem : Bool) → (path : Bytes) → MemSample → MemSample
    with_files rich_mem path sample =
        let psi = pressure path in
        if bytes_eq path []
        then sample
        else with_proc rich_mem path (record sample {
          memory_bytes = read_cgroup_uint64 contents path (codes "memory.current");
          memory_limit_bytes = read_cgroup_uint64 contents path (codes "memory.max");
          psi_some = psi.0;
          psi_full = psi.1;
        })

    abbrev pub mem_sample :
        (now : Time) → MemoryCollector → ℕ → PfStats → ContainerInfo → S → S × MemSample
    mem_sample now m id val info s = (
      s,
      with_files m.rich_mem info.cgroup_path (
          with_rates (elapsed floats now m.prev_at) val (lookup id m.prev)
            (bare_sample now id val (text info.name))),
    )

    pub record Collected : Type 0 where
      pub state : S
      pub collector : MemoryCollector
      pub pf_map : Keyed ℕ PfStats
      pub samples : Option (List MemSample)

    -- `fails` is the error of the walk, after the entries that it gave.
    unfoldable pub collect :
        Time → (fails : Bool) → Keyed ℕ PfStats → MemoryCollector → S → Collected
    collect now fails pf_map m s =
        let polled = poll resolve (λ id. id) (mem_sample now m) pf_map s in
        if fails
        then record { state = polled.state; collector = m; pf_map = pf_map; samples = none }
        else record {
          state = polled.state;
          collector = record m { prev = next_prev polled.samples []; prev_at = now };
          pf_map = delete_keys polled.to_delete pf_map;
          samples = some polled.samples;
        }
