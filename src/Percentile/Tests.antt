-- ===== src/Percentile/Tests.antt =====
-- A histogram that lists its values, on calls that pass the first turn of the shortest window.
use self_healing_kubernetes.Base.{
  ℕ, ◌+◌, ◌/◌, ◌≡◌, refl, none, some, List, [], ◌∷◌, ◌++◌, length, replicate, string_Eq, lookup,
  if◌then◌else◌,
}
use self_healing_kubernetes.Percentile.{Sketch, new_latency_aggregator, tick, snapshot}
use self_healing_kubernetes.Percentile.Runs.{Call, records, ticks, run, held, is_recorded}
use self_healing_kubernetes.Percentile.Tumbling.{measured, snapshot-tick}

abbrev listing : Sketch
listing = record {
  Histogram = List (ℕ × ℕ);
  new = [];
  record_values = λ value count h. (value, count) ∷ h;
  value_at_quantile = λ q h. q + length h;
  max = λ h. length h;
  reset = λ h. [];
  Float = ℕ;
  zero = 0;
  millis = λ us. us / 1000;
}

abbrev calls : List Call
calls = records "io" 4000 1 ∷ (replicate 10 ticks ++ records "io" 0 2 ∷ records "net" 9 0 ∷ [])

snapshot-tick_example :
    lookup "io"
      (snapshot listing (tick listing (run listing calls (new_latency_aggregator listing))))
    ≡ (if is_recorded listing "io" calls
        then some (
            measured listing
              (held listing 10 "io" 0 [] calls)
              (held listing 60 "io" 0 [] calls)
              (held listing 300 "io" 0 [] calls))
        else none)
snapshot-tick_example = snapshot-tick listing (λ h. refl) calls "io"

-- The first value has left the window of ten ticks and not that of sixty.
held_ten : held listing 10 "io" 0 [] calls ≡ (1, 2) ∷ []
held_ten = refl

held_sixty : held listing 60 "io" 0 [] calls ≡ (1, 2) ∷ (4000, 1) ∷ []
held_sixty = refl
