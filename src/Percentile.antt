-- ===== src/Percentile.antt =====
-- pkg/percentile/percentile.go: the latency percentiles of each key over tumbling windows. The locks
-- are left out: a call is one step. A `*keyState` of the map is stored again after each change.
pub mod Runs
pub mod Tumbling
mod Tests
use self_healing_kubernetes.Base.{
  ℕ, ◌+◌, ◌%◌, ◌^◌, String, Option, none, some, List, [], ◌∷◌, ltb, nat_eq, ◌==◌, string_Eq,
  if◌then◌else◌, Keyed, lookup, insert,
}

-- What the code uses of hdrhistogram and of `float64`: `new` is an empty histogram of the code's
-- range, `millis` the conversion of microseconds.
pub record Sketch : Type 1 where
  pub Histogram : Type 0
  pub new : Histogram
  pub record_values : (value count : ℕ) → Histogram → Histogram
  pub value_at_quantile : ℕ → Histogram → ℕ
  pub max : Histogram → ℕ
  pub reset : Histogram → Histogram
  pub Float : Type 0
  pub zero : Float
  pub millis : ℕ → Float

module _ (sketch : Sketch) where
  open sketch use {Histogram, Float}

  pub record Snapshot : Type 0 where
    pub p50 : Float
    pub p95 : Float
    pub p99 : Float
    pub max : Float

  pub record WindowSnapshots : Type 0 where
    pub w10s : Snapshot
    pub w60s : Snapshot
    pub w300s : Snapshot

  pub record KeyState : Type 0 where
    pub active10s : Histogram
    pub active60s : Histogram
    pub active300s : Histogram
    pub snap : WindowSnapshots

  abbrev pub zero_snapshot : Snapshot
  zero_snapshot = record {
    p50 = sketch.zero;
    p95 = sketch.zero;
    p99 = sketch.zero;
    max = sketch.zero;
  }

  abbrev pub new_key_state : KeyState
  new_key_state = record {
    active10s = sketch.new;
    active60s = sketch.new;
    active300s = sketch.new;
    snap = record { w10s = zero_snapshot; w60s = zero_snapshot; w300s = zero_snapshot };
  }

  pub record LatencyAggregator : Type 0 where
    pub keys : Keyed String KeyState
    pub ticks : ℕ

  abbrev pub new_latency_aggregator : LatencyAggregator
  new_latency_aggregator = record { keys = []; ticks = 0 }

  -- `if latencyUs < 1 { latencyUs = 1 }`; 0 stands for every number below 1.
  abbrev pub at_least_one : ℕ → ℕ
  at_least_one latency = if ltb latency 1 then 1 else latency

  abbrev pub add_values : (value count : ℕ) → KeyState → KeyState
  add_values value count ks = record ks {
    active10s = sketch.record_values value count ks.active10s;
    active60s = sketch.record_values value count ks.active60s;
    active300s = sketch.record_values value count ks.active300s;
  }

  unfoldable pub record_values :
      String → (latency count : ℕ) → LatencyAggregator → LatencyAggregator
  record_values key latency count a = if ltb count 1 then a else record a {
    keys =
        insert key
          (add_values (at_least_one latency) count
            (elim (lookup key a.keys) [ none ↦ new_key_state | some ks ↦ ks ]))
          a.keys;
  }

  unfoldable pub record_latency : String → (latency : ℕ) → LatencyAggregator → LatencyAggregator
  record_latency key latency a = record_values key latency 1 a

  abbrev pub measure : Histogram → Snapshot
  measure h = record {
    p50 = sketch.millis (sketch.value_at_quantile 50 h);
    p95 = sketch.millis (sketch.value_at_quantile 95 h);
    p99 = sketch.millis (sketch.value_at_quantile 99 h);
    max = sketch.millis (sketch.max h);
  }

  abbrev pub reset_at : (width ticks : ℕ) → Histogram → Histogram
  reset_at width ticks h = if nat_eq (ticks % width) 0 then sketch.reset h else h

  -- The body of the loop of `Tick`, with the number of the tick.
  abbrev pub tick_key : ℕ → KeyState → KeyState
  tick_key ticks ks = record {
    snap = record {
      w10s = measure ks.active10s;
      w60s = measure ks.active60s;
      w300s = measure ks.active300s;
    };
    active10s = reset_at 10 ticks ks.active10s;
    active60s = reset_at 60 ticks ks.active60s;
    active300s = reset_at 300 ticks ks.active300s;
  }

  unfoldable pub tick_keys : ℕ → Keyed String KeyState → Keyed String KeyState
  tick_keys ticks [] = []
  tick_keys ticks ((key, ks) ∷ rest) = (key, tick_key ticks ks) ∷ tick_keys ticks rest

  unfoldable pub tick : LatencyAggregator → LatencyAggregator
  tick a =
      let ticks' = (a.ticks + 1) % 2 ^ 64 in
      record { keys = tick_keys ticks' a.keys; ticks = ticks' }

  unfoldable pub snapshots : Keyed String KeyState → Keyed String WindowSnapshots
  snapshots [] = []
  snapshots ((key, ks) ∷ rest) = (key, ks.snap) ∷ snapshots rest

  unfoldable pub snapshot : LatencyAggregator → Keyed String WindowSnapshots
  snapshot a = snapshots a.keys
