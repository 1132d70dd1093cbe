-- ===== src/Collector/Cpu.antt =====
-- pkg/collector/cpu.go: the samples of processor time.
pub mod Deltas
use self_healing_kubernetes.Base.{
  ℕ, String, Bool, true, false, not, ◌&&◌, Option, none, some, List, [], ◌∷◌, ltb, if◌then◌else◌,
  Keyed, lookup, insert, nat_Eq, Time,
}
use self_healing_kubernetes.Base.Bytes.{Bytes, text}
use self_healing_kubernetes.Base.Strings.{bytes_eq}
use self_healing_kubernetes.Cgroup.Scan.{ContainerInfo}
use self_healing_kubernetes.Collector.{saturating_sub}
use self_healing_kubernetes.Collector.Polling.{Floats, elapsed, over, Polled, poll, delete_keys}

pub record CpuStats : Type 0 where
  pub total_ns : ℕ
  pub runq_latency_ns : ℕ
  pub ctx_switches : ℕ
  pub thread_count : ℕ

-- A count above a million is taken for one that wrapped below 0.
abbrev pub guarded_count : ℕ → ℕ
guarded_count count = if ltb 1_000_000 count then 0 else count

module _ (floats : Floats) where
  open floats use {Float}

  pub record CpuSample : Type 0 where
    pub cgroup_id : ℕ
    pub container_name : String
    pub total_ns : ℕ
    pub runq_latency_ns : ℕ
    pub ctx_switches : ℕ
    pub thread_count : ℕ
    pub cpu_seconds : Float
    pub runq_latency_seconds : Float
    pub ctx_switches_per_sec : Float
    pub numa_local_pct : Float
    pub numa_remote_pct : Float
    pub collected_at : Time

  pub record CpuCollector : Type 0 where
    pub prev : Keyed ℕ CpuStats
    pub prev_at : Time

  abbrev pub bare_sample : (now : Time) → ℕ → CpuStats → (name : String) → CpuSample
  bare_sample now id val name = record {
    cgroup_id = id;
    container_name = name;
    total_ns = val.total_ns;
    runq_latency_ns = val.runq_latency_ns;
    ctx_switches = val.ctx_switches;
    thread_count = guarded_count val.thread_count;
    cpu_seconds = floats.from_nat 0;
    runq_latency_seconds = floats.from_nat 0;
    ctx_switches_per_sec = floats.from_nat 0;
    numa_local_pct = floats.from_nat 0;
    numa_remote_pct = floats.from_nat 0;
    collected_at = now;
  }

  abbrev pub with_deltas :
      (seconds : Float) → (val : CpuStats) → Option CpuStats → CpuSample → CpuSample
  with_deltas seconds val none sample = sample
  with_deltas seconds val (some prev) sample = record sample {
    cpu_seconds =
        over floats (saturating_sub val.total_ns prev.total_ns) (floats.from_nat 1_000_000_000);
    runq_latency_seconds =
        over floats (saturating_sub val.runq_latency_ns prev.runq_latency_ns)
          (floats.from_nat 1_000_000_000);
    ctx_switches_per_sec = over floats (saturating_sub val.ctx_switches prev.ctx_switches) seconds;
  }

  abbrev pub with_numa : Float × Float → CpuSample → CpuSample
  with_numa numa sample = record sample { numa_local_pct = numa.0; numa_remote_pct = numa.1 }

  unfoldable pub next_prev : List CpuSample → Keyed ℕ CpuStats → Keyed ℕ CpuStats
  next_prev [] prev = prev
  next_prev (s ∷ samples) prev = next_prev samples (
      insert s.cgroup_id
        (record {
          total_ns = s.total_ns;
          runq_latency_ns = s.runq_latency_ns;
          ctx_switches = s.ctx_switches;
          thread_count = s.thread_count;
        })
        prev)

  -- `read_numa_stats` reads the statistics of a path below the root of the cgroups.
  module _ {S : Type 0} (resolve : ℕ → S → S × Option ContainerInfo)
      (read_numa_stats : Bytes → Float × Float) where
    -- The shares of NUMA need a second lookup of the cgroup.
    abbrev pub numa_of : Option ContainerInfo → CpuSample → CpuSample
    numa_of none sample = sample
    numa_of (some info) sample =
        if bytes_eq info.cgroup_path []
        then sample
        else with_numa (read_numa_stats info.cgroup_path) sample

    abbrev pub cpu_sample :
        (now : Time) → CpuCollector → ℕ → CpuStats → ContainerInfo → S → S × CpuSample
    cpu_sample now c id val info s =
        let again = resolve id s in
        (
          again.0,
          numa_of again.1 (
              with_deltas (elapsed floats now c.prev_at) val (lookup id c.prev)
                (bare_sample now id val (text info.name))),
        )

    -- What a collection leaves: `none` for the samples is the error of the walk over the map.
    pub record Collected : Type 0 where
      pub state : S
      pub collector : CpuCollector
      pub cpu_map : Keyed ℕ CpuStats
      pub samples : Option (List CpuSample)

    -- `fails` is the error of the walk, after the entries that it gave.
    unfoldable pub collect : Time → (fails : Bool) → Keyed ℕ CpuStats → CpuCollector → S → Collected
    collect now fails cpu_map c s =
        let polled = poll resolve (λ id. id) (cpu_sample now c) cpu_map s in
        if fails
        then record { state = polled.state; collector = c; cpu_map = cpu_map; samples = none }
        else record {
          state = polled.state;
          collector = record { prev = next_prev polled.samples []; prev_at = now };
          cpu_map = delete_keys polled.to_delete cpu_map;
          samples = some polled.samples;
        }
