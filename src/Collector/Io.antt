-- ===== src/Collector/Io.antt =====
-- pkg/collector/io.go: the samples of block I/O and the events of opened files.
pub mod Latency
use self_healing_kubernetes.Base.{
  ℕ, String, Bool, true, false, Option, none, some, List, [], ◌∷◌, ltb, if◌then◌else◌, Keyed,
  lookup, insert, nat_Eq, Time,
}
use self_healing_kubernetes.Base.Bytes.{Bytes, text, slice, little_endian}
use self_healing_kubernetes.Cgroup.Scan.{ContainerInfo}
use self_healing_kubernetes.Collector.{null_term_str, saturating_sub, container_name, drain}
use self_healing_kubernetes.Collector.Polling.{
  Floats, elapsed, over, Polled, poll, delete_keys, last_value,
}

pub record IoStats : Type 0 where
  pub read_bytes : ℕ
  pub write_bytes : ℕ
  pub read_ios : ℕ
  pub write_ios : ℕ
  pub read_latency_ns : ℕ
  pub write_latency_ns : ℕ

abbrev pub zero_stats : IoStats
zero_stats = record {
  read_bytes = 0;
  write_bytes = 0;
  read_ios = 0;
  write_ios = 0;
  read_latency_ns = 0;
  write_latency_ns = 0;
}

module _ (floats : Floats) where
  open floats use {Float}

  pub record IoSample : Type 0 where
    pub cgroup_id : ℕ
    pub container_name : String
    pub read_bytes : ℕ
    pub write_bytes : ℕ
    pub read_ios : ℕ
    pub write_ios : ℕ
    pub read_bytes_per_sec : Float
    pub write_bytes_per_sec : Float
    pub read_ios_per_sec : Float
    pub write_ios_per_sec : Float
    pub avg_read_latency_ms : Float
    pub avg_write_latency_ms : Float
    pub collected_at : Time

  -- What the collector keeps between two collections.
  pub record IoCollector : Type 0 where
    pub prev : Keyed ℕ IoStats
    pub prev_at : Time

  -- The average latency of the operations since the last collection.
  abbrev pub average_ms : (latency ios : ℕ) → Float
  average_ms latency ios =
      if ltb 0 ios
      then floats.divide (over floats latency (floats.from_nat ios)) (floats.from_nat 1_000_000)
      else floats.from_nat 0

  -- A sample without its rates.
  abbrev pub bare_sample : (now : Time) → ℕ → IoStats → (name : String) → IoSample
  bare_sample now id val name = record {
    cgroup_id = id;
    container_name = name;
    read_bytes = val.read_bytes;
    write_bytes = val.write_bytes;
    read_ios = val.read_ios;
    write_ios = val.write_ios;
    read_bytes_per_sec = floats.from_nat 0;
    write_bytes_per_sec = floats.from_nat 0;
    read_ios_per_sec = floats.from_nat 0;
    write_ios_per_sec = floats.from_nat 0;
    avg_read_latency_ms = floats.from_nat 0;
    avg_write_latency_ms = floats.from_nat 0;
    collected_at = now;
  }

  abbrev pub with_rates : (seconds : Float) → (val : IoStats) → Option IoStats → IoSample → IoSample
  with_rates seconds val none sample = sample
  with_rates seconds val (some prev) sample =
      let delta_ri = saturating_sub val.read_ios prev.read_ios in
      let delta_wi = saturating_sub val.write_ios prev.write_ios in
      record sample {
        read_bytes_per_sec = over floats (saturating_sub val.read_bytes prev.read_bytes) seconds;
        write_bytes_per_sec = over floats (saturating_sub val.write_bytes prev.write_bytes) seconds;
        read_ios_per_sec = over floats delta_ri seconds;
        write_ios_per_sec = over floats delta_wi seconds;
        avg_read_latency_ms =
            average_ms (saturating_sub val.read_latency_ns prev.read_latency_ns) delta_ri;
        avg_write_latency_ms =
            average_ms (saturating_sub val.write_latency_ns prev.write_latency_ns) delta_wi;
      }

  -- The next `prev`. The latencies are those of `val`, the variable of the walk over the map, which no
  -- longer changes.
  unfoldable pub next_prev : (val : IoStats) → List IoSample → Keyed ℕ IoStats → Keyed ℕ IoStats
  next_prev val [] prev = prev
  next_prev val (s ∷ samples) prev = next_prev val samples (
      insert s.cgroup_id
        (record {
          read_bytes = s.read_bytes;
          write_bytes = s.write_bytes;
          read_ios = s.read_ios;
          write_ios = s.write_ios;
          read_latency_ns = val.read_latency_ns;
          write_latency_ns = val.write_latency_ns;
        })
        prev)

  module _ {S : Type 0} (resolve : ℕ → S → S × Option ContainerInfo) where
    abbrev pub io_sample :
        (now : Time) → IoCollector → ℕ → IoStats → ContainerInfo → S → S × IoSample
    io_sample now c id val info s = (
      s,
      with_rates (elapsed floats now c.prev_at) val (lookup id c.prev)
          (bare_sample now id val (text info.name)),
    )

    -- What a collection leaves: `none` for the samples is the error of the walk over the map.
    pub record Collected : Type 0 where
      pub state : S
      pub collector : IoCollector
      pub io_map : Keyed ℕ IoStats
      pub samples : Option (List IoSample)

    -- `fails` is the error of the walk, after the entries that it gave.
    unfoldable pub collect : Time → (fails : Bool) → Keyed ℕ IoStats → IoCollector → S → Collected
    collect now fails io_map c s =
        let polled = poll resolve (λ id. id) (io_sample now c) io_map s in
        if fails
        then record { state = polled.state; collector = c; io_map = io_map; samples = none }
        else record {
          state = polled.state;
          collector = record {
            prev = next_prev (last_value io_map zero_stats) polled.samples [];
            prev_at = now;
          };
          io_map = delete_keys polled.to_delete io_map;
          samples = some polled.samples;
        }

pub record FileEventRaw : Type 0 where
  pub cgroup_id : ℕ
  pub pid : ℕ
  pub flags : ℕ
  pub comm : Bytes
  pub filename : Bytes

abbrev pub file_event_size : ℕ
file_event_size = 160

unfoldable pub parse_file_event : Bytes → FileEventRaw
parse_file_event bytes = record {
  cgroup_id = little_endian (slice 0 8 bytes);
  pid = little_endian (slice 8 4 bytes);
  flags = little_endian (slice 12 4 bytes);
  comm = slice 16 16 bytes;
  filename = slice 32 128 bytes;
}

pub record FileEvent : Type 0 where
  pub timestamp : Time
  pub cgroup_id : ℕ
  pub container_name : String
  pub pid : ℕ
  pub flags : ℕ
  pub comm : String
  pub filename : String

-- All the events of a drain are given one time.
module _ {S : Type 0} (resolve : ℕ → S → S × Option ContainerInfo) where
  abbrev pub read_file_event : (now : Time) → Bytes → S → S × FileEvent
  read_file_event now bytes s =
      let raw = parse_file_event bytes in
      let answer = resolve raw.cgroup_id s in
      (
        answer.0,
        record {
          timestamp = now;
          cgroup_id = raw.cgroup_id;
          container_name = container_name raw.cgroup_id answer.1;
          pid = raw.pid;
          flags = raw.flags;
          comm = text (null_term_str raw.comm);
          filename = text (null_term_str raw.filename);
        },
      )

  unfoldable pub read_file_events : (now : Time) → List Bytes → S → S × List FileEvent
  read_file_events now records s = drain file_event_size (read_file_event now) records s
