-- ===== src/Timeseries/Tests.antt =====
-- The circular buffer on a run that wraps.
use self_healing_kubernetes.Base.{ℕ, ◌-◌, ◌≡◌, refl, some, List, [], ◌∷◌, arith, length, drop}
use self_healing_kubernetes.Timeseries.{Buffer, new_buffer, push, snapshot, clear}
use self_healing_kubernetes.Timeseries.Recent as Recent

abbrev calls : List (Recent.Call ℕ)
calls =
    Recent.pushes 7
    ∷ Recent.clears
    ∷ Recent.pushes 1
    ∷ Recent.pushes 2
    ∷ Recent.pushes 3
    ∷ Recent.pushes 4
    ∷ []

last_two :
    Recent.run ℕ (new_buffer ℕ 0 2) calls
    ≡ some (record { items = 3 ∷ 4 ∷ []; head = 0; size = 2; capacity = 2 })
unfolding Recent.run new_buffer push clear
last_two = refl

snapshot-run_example :
    (b : Buffer ℕ) × (Recent.run ℕ (new_buffer ℕ 0 2) calls ≡ some b)
    × (snapshot ℕ b
        ≡ some (drop (length (Recent.since_clear ℕ [] calls) - 2) (Recent.since_clear ℕ [] calls)))
snapshot-run_example = Recent.snapshot-run ℕ 0 2 calls (omega arith)
