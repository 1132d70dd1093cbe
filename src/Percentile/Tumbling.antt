-- ===== src/Percentile/Tumbling.antt =====
-- The percentiles after a tick are those of the values since the last turn of each window.
use self_healing_kubernetes.Base.{
  ℕ, ◌+◌, ◌%◌, ◌^◌, ◌≡◌, refl, ap, ◌∙◌, String, not, ◌&&◌, none, some, List, [], ◌∷◌, arith, ltb,
  nat_eq, ◌==◌, string_Eq, if◌then◌else◌, Bool-cases, Option-cases, inl, inr, Keyed, lookup,
}
use self_healing_kubernetes.Percentile.{
  Sketch, WindowSnapshots, KeyState, LatencyAggregator, new_key_state, new_latency_aggregator,
  at_least_one, add_values, record_values, measure, reset_at, tick_key, tick_keys, tick, snapshots,
  snapshot,
}
use self_healing_kubernetes.Percentile.Runs.{
  Call, records, ticks, run, held, state_at, state_at-record_values, lookup-tick_keys, is_recorded,
  is_known, is_known-run,
}

module _ (sketch : Sketch) where
  -- A histogram of the key's state, for each of the three windows.
  pub data Width : Type 0 where
    ten sixty three_hundred : Width

  abbrev pub width_of : Width → ℕ
  width_of ten = 10
  width_of sixty = 60
  width_of three_hundred = 300

  abbrev active : Width → KeyState sketch → sketch.Histogram
  active ten ks = ks.active10s
  active sixty ks = ks.active60s
  active three_hundred ks = ks.active300s

  active-add_values :
      (w : Width) (value count : ℕ) (ks : KeyState sketch)
      → active w (add_values sketch value count ks) ≡ sketch.record_values value count (active w ks)
  active-add_values ten value count ks = refl
  active-add_values sixty value count ks = refl
  active-add_values three_hundred value count ks = refl

  active-new_key_state : (w : Width) → active w (new_key_state sketch) ≡ sketch.new
  active-new_key_state ten = refl
  active-new_key_state sixty = refl
  active-new_key_state three_hundred = refl

  active-tick_key :
      (w : Width) (number : ℕ) (ks : KeyState sketch)
      → active w (tick_key sketch number ks) ≡ reset_at sketch (width_of w) number (active w ks)
  active-tick_key ten number ks = refl
  active-tick_key sixty number ks = refl
  active-tick_key three_hundred number ks = refl

  active-record_values :
      (w : Width) (k key : String) (latency count : ℕ) (a : LatencyAggregator sketch)
      → active w (state_at sketch k (record_values sketch key latency count a)) ≡ (
          if key == k && not (ltb count 1)
          then sketch.record_values
              (at_least_one sketch latency)
              count
              (active w (state_at sketch k a))
          else active w (state_at sketch k a))
  active-record_values w k key latency count a =
      ap (active w) (state_at-record_values sketch k key latency count a)
      ∙ elim (Bool-cases (key == k && not (ltb count 1))) [
        | inl mine ↦
            rw mine (active-add_values w (at_least_one sketch latency) count (state_at sketch k a))
        | inr other ↦ rw other refl
      ]

  active-tick :
      (reset-new : (h : sketch.Histogram) → sketch.reset h ≡ sketch.new) (w : Width) (k : String)
      (a : LatencyAggregator sketch)
      → active w (state_at sketch k (tick sketch a)) ≡ (
          if nat_eq (((a.ticks + 1) % 2 ^ 64) % width_of w) 0
          then sketch.new
          else active w (state_at sketch k a))
  unfolding tick
  active-tick reset-new w k a =
      let number = (a.ticks + 1) % 2 ^ 64 in
      elim (Option-cases (lookup k a.keys)) [
        | inl absent ↦
            ground (arith, absent, lookup-tick_keys sketch k number a.keys, active-new_key_state w)
        | inr (ks, found) ↦ ground (
          arith,
          found,
          lookup-tick_keys sketch k number a.keys,
          active-tick_key w number ks,
          reset-new (active w ks),
        )
      ]

  ticks-record_values :
      (key : String) (latency count : ℕ) (a : LatencyAggregator sketch)
      → (record_values sketch key latency count a).ticks ≡ a.ticks
  unfolding record_values
  ticks-record_values key latency count a = ground arith

  ticks-tick : (a : LatencyAggregator sketch) → (tick sketch a).ticks ≡ (a.ticks + 1) % 2 ^ 64
  unfolding tick
  ticks-tick a = refl

  active-run :
      (reset-new : (h : sketch.Histogram) → sketch.reset h ≡ sketch.new) (w : Width) (k : String)
      (calls : List Call) (a : LatencyAggregator sketch)
      → active w (state_at sketch k (run sketch calls a))
        ≡ held sketch (width_of w) k a.ticks (active w (state_at sketch k a)) calls
  unfolding run
  active-run reset-new w k [] a = refl
  active-run reset-new w k (records key latency count ∷ calls) a =
      let a' = record_values sketch key latency count a in
      active-run reset-new w k calls a'
      ∙ ap (λ n. held sketch (width_of w) k n (active w (state_at sketch k a')) calls)
          (ticks-record_values key latency count a)
      ∙ ap (λ h. held sketch (width_of w) k a.ticks h calls)
          (active-record_values w k key latency count a)
  active-run reset-new w k (ticks ∷ calls) a =
      active-run reset-new w k calls (tick sketch a)
      ∙ ap (λ n. held sketch (width_of w) k n (active w (state_at sketch k (tick sketch a))) calls)
          (ticks-tick a)
      ∙ ap (λ h. held sketch (width_of w) k ((a.ticks + 1) % 2 ^ 64) h calls)
          (active-tick reset-new w k a)

  lookup-snapshots :
      (k : String) (keys : Keyed String (KeyState sketch))
      → lookup k (snapshots sketch keys)
        ≡ elim (lookup k keys) [ none ↦ none | some ks ↦ some ks.snap ]
  unfolding snapshots lookup
  lookup-snapshots k [] = refl
  lookup-snapshots k ((j, ks) ∷ rest) = ground (arith, lookup-snapshots k rest)

  -- The snapshots that measure three histograms.
  abbrev pub measured : (w10 w60 w300 : sketch.Histogram) → WindowSnapshots sketch
  measured w10 w60 w300 = record {
    w10s = measure sketch w10;
    w60s = measure sketch w60;
    w300s = measure sketch w300;
  }

  lookup-snapshot-tick :
      (k : String) (a : LatencyAggregator sketch)
      → lookup k (snapshot sketch (tick sketch a)) ≡ (
          if is_known sketch k a
          then some (
              measured
                (active ten (state_at sketch k a))
                (active sixty (state_at sketch k a))
                (active three_hundred (state_at sketch k a)))
          else none)
  unfolding snapshot tick
  lookup-snapshot-tick k a =
      let number = (a.ticks + 1) % 2 ^ 64 in
      ground (
        arith,
        lookup-snapshots k (tick_keys sketch number a.keys),
        lookup-tick_keys sketch k number a.keys,
      )

  -- The run starts with empty histograms and no key.
  held-run :
      (reset-new : (h : sketch.Histogram) → sketch.reset h ≡ sketch.new) (w : Width) (k : String)
      (calls : List Call)
      → active w (state_at sketch k (run sketch calls (new_latency_aggregator sketch)))
        ≡ held sketch (width_of w) k 0 sketch.new calls
  unfolding lookup
  held-run reset-new w k calls =
      active-run reset-new w k calls (new_latency_aggregator sketch)
      ∙ ap (λ h. held sketch (width_of w) k 0 h calls) (active-new_key_state w)

  is_known-new :
      (k : String) (calls : List Call)
      → is_known sketch k (run sketch calls (new_latency_aggregator sketch))
        ≡ is_recorded sketch k calls
  unfolding lookup
  is_known-new k calls = is_known-run sketch k calls (new_latency_aggregator sketch)

  -- Where resetting a histogram empties it, the snapshot that follows a tick, after any sequence of
  -- calls on a new aggregator, has a key exactly when a call has recorded a value for it, and then
  -- measures for each of the three windows the histogram of just the values of the key since the last
  -- earlier tick whose number the window's 10, 60 or 300 ticks divide.
  pub snapshot-tick :
      (reset-new : (h : sketch.Histogram) → sketch.reset h ≡ sketch.new) (calls : List Call)
      (k : String)
      → lookup k (snapshot sketch (tick sketch (run sketch calls (new_latency_aggregator sketch))))
        ≡ (if is_recorded sketch k calls
            then some (
                measured
                  (held sketch 10 k 0 sketch.new calls)
                  (held sketch 60 k 0 sketch.new calls)
                  (held sketch 300 k 0 sketch.new calls))
            else none)
  snapshot-tick reset-new calls k =
      rw
        (
          is_known-new k calls,
          held-run reset-new ten k calls,
          held-run reset-new sixty k calls,
          held-run reset-new three_hundred k calls,
        )
        at (lookup-snapshot-tick k (run sketch calls (new_latency_aggregator sketch)))
