-- ===== src/Percentile/Runs.antt =====
-- Runs of calls: the state of one key, and the reference for what a window holds.
use self_healing_kubernetes.Base.{
  ℕ, ◌+◌, ◌%◌, ◌^◌, ◌≡◌, refl, ap, String, Bool, true, false, not, ◌&&◌, ◌||◌, none, some, List, [],
  ◌∷◌, arith, ltb, nat_eq, ◌==◌, string_Eq, if◌then◌else◌, Keyed, lookup, lookup-insert,
}
use self_healing_kubernetes.Percentile.{
  Sketch, KeyState, LatencyAggregator, new_key_state, at_least_one, add_values, record_values,
  tick_key, tick_keys, tick,
}

pub data Call : Type 0 where
  records : String → (latency count : ℕ) → Call
  ticks : Call

module _ (sketch : Sketch) where
  unfoldable pub run : List Call → LatencyAggregator sketch → LatencyAggregator sketch
  run [] a = a
  run (records key latency count ∷ calls) a = run calls (record_values sketch key latency count a)
  run (ticks ∷ calls) a = run calls (tick sketch a)

  -- The reference: the histogram of the values that the calls record for a key since the last tick
  -- whose number the width divides, from the number of the last tick and a histogram.
  abbrev pub held : (width : ℕ) → String → ℕ → sketch.Histogram → List Call → sketch.Histogram
  held width k number h [] = h
  held width k number h (records key latency count ∷ calls) =
      held width k number
        (if key == k && not (ltb count 1)
          then sketch.record_values (at_least_one sketch latency) count h
          else h)
        calls
  held width k number h (ticks ∷ calls) =
      let next = (number + 1) % 2 ^ 64 in
      held width k next (if nat_eq (next % width) 0 then sketch.new else h) calls

  -- The state of a key, where a key that is not there yet has empty histograms.
  abbrev pub state_at : String → LatencyAggregator sketch → KeyState sketch
  state_at k a = elim (lookup k a.keys) [ none ↦ new_key_state sketch | some ks ↦ ks ]

  pub state_at-record_values :
      (k key : String) (latency count : ℕ) (a : LatencyAggregator sketch)
      → state_at k (record_values sketch key latency count a) ≡ (
          if key == k && not (ltb count 1)
          then add_values sketch (at_least_one sketch latency) count (state_at k a)
          else state_at k a)
  unfolding record_values
  state_at-record_values k key latency count a = ground (
    arith,
    lookup-insert key k (add_values sketch (at_least_one sketch latency) count (state_at key a))
        a.keys,
    string_Eq.equal_iff key k,
    ap (λ x. state_at x a) {x = key} {y = k},
  )

  pub lookup-tick_keys :
      (k : String) (number : ℕ) (keys : Keyed String (KeyState sketch))
      → lookup k (tick_keys sketch number keys)
        ≡ elim (lookup k keys) [ none ↦ none | some ks ↦ some (tick_key sketch number ks) ]
  unfolding tick_keys lookup
  lookup-tick_keys k number [] = refl
  lookup-tick_keys k number ((j, ks) ∷ rest) = ground (arith, lookup-tick_keys k number rest)

  -- Whether a call records a value for a key.
  abbrev pub is_recorded : String → List Call → Bool
  is_recorded k [] = false
  is_recorded k (records key latency count ∷ calls) =
      (key == k && not (ltb count 1)) || is_recorded k calls
  is_recorded k (ticks ∷ calls) = is_recorded k calls

  abbrev pub is_known : String → LatencyAggregator sketch → Bool
  is_known k a = elim (lookup k a.keys) [ none ↦ false | some _ ↦ true ]

  is_known-record_values :
      (k key : String) (latency count : ℕ) (a : LatencyAggregator sketch)
      → is_known k (record_values sketch key latency count a)
        ≡ (key == k && not (ltb count 1)) || is_known k a
  unfolding record_values
  is_known-record_values k key latency count a = ground (
    arith,
    lookup-insert key k (add_values sketch (at_least_one sketch latency) count (state_at key a))
        a.keys,
  )

  is_known-tick :
      (k : String) (a : LatencyAggregator sketch) → is_known k (tick sketch a) ≡ is_known k a
  unfolding tick
  is_known-tick k a = ground (arith, lookup-tick_keys k ((a.ticks + 1) % 2 ^ 64) a.keys)

  pub is_known-run :
      (k : String) (calls : List Call) (a : LatencyAggregator sketch)
      → is_known k (run calls a) ≡ is_known k a || is_recorded k calls
  unfolding run
  is_known-run k [] a = ground arith
  is_known-run k (records key latency count ∷ calls) a = ground (
    arith,
    is_known-run k calls (record_values sketch key latency count a),
    is_known-record_values k key latency count a,
  )
  is_known-run k (ticks ∷ calls) a =
      ground (arith, is_known-run k calls (tick sketch a), is_known-tick k a)
