-- ===== src/Guardrails/Breaker/Pause.antt =====
-- The pause of an open breaker, and what it takes to open it again.
use self_healing_kubernetes.Base.{
  ◌+◌, ◌≤◌, ◌<◌, ◌≡◌, refl, Bool, true, false, List, [], ◌∷◌, arith, All, Time,
}
use self_healing_kubernetes.Guardrails.Breaker.{
  CircuitBreaker, allow, record_success, record_failure, record_outcome, maybe_trip,
}

-- The calls that the reconciler and its observers make, with the clock readings of each.
pub data Call : Type 0 where
  allows succeeds : Time → Call
  fails : (recorded tripped : Time) → Call

-- The answers of the `Allow` calls, in order.
unfoldable pub answers : CircuitBreaker → List Call → List Bool
answers cb [] = []
answers cb (allows now ∷ calls) = let (answer, cb') = allow now cb in answer ∷ answers cb' calls
answers cb (succeeds now ∷ calls) = answers (record_success now cb) calls
answers cb (fails recorded tripped ∷ calls) = answers (record_failure recorded tripped cb) calls

-- The call's clock lies in the span from `start` up to `limit`.
abbrev pub Between : Time → Time → Call → Type 0
Between start limit (allows now) = (start ≤ now) × (now < limit)
Between start limit (succeeds now) = (start ≤ now) × (now < limit)
Between start limit (fails recorded tripped) = (start ≤ tripped) × (tripped < limit)

record IsPaused (start limit : Time) (cb : CircuitBreaker) : Type 0 where
  on : cb.enabled ≡ true
  opened : cb.is_open ≡ true
  since : limit ≤ start + cb.pause_duration
  tripped : start ≤ cb.tripped_at

record_failure-IsPaused :
    (start limit recorded tripped : Time) (cb : CircuitBreaker)
    → start ≤ tripped
    → IsPaused start limit cb
    → IsPaused start limit (record_failure recorded tripped cb)
unfolding record_failure record_outcome maybe_trip
record_failure-IsPaused start limit recorded tripped cb h p = ground arith

record_success-IsPaused :
    (start limit now : Time) (cb : CircuitBreaker)
    → IsPaused start limit cb
    → IsPaused start limit (record_success now cb)
unfolding record_success record_outcome
record_success-IsPaused start limit now cb p = ground arith

allow-IsPaused :
    (start limit now : Time) (cb : CircuitBreaker)
    → now < limit
    → IsPaused start limit cb
    → allow now cb ≡ (false, cb)
unfolding allow
allow-IsPaused start limit now cb h p = ground arith

paused :
    (start limit : Time) (cb : CircuitBreaker) (calls : List Call)
    → IsPaused start limit cb
    → All (Between start limit) calls
    → All (λ a. a ≡ false) (answers cb calls)
unfolding answers
paused start limit cb [] p h = tt
paused start limit cb (allows now ∷ calls) p h =
    rw (allow-IsPaused start limit now cb h.0.1 p) (refl, paused start limit cb calls p h.1)
paused start limit cb (succeeds now ∷ calls) p h =
    paused start limit (record_success now cb) calls (record_success-IsPaused start limit now cb p)
      h.1
paused start limit cb (fails recorded tripped ∷ calls) p h =
    paused start limit (record_failure recorded tripped cb) calls
      (record_failure-IsPaused start limit recorded tripped cb h.0.0 p) h.1

-- An enabled, open breaker answers no to every `Allow` made before the pause since its trip is
-- over, however the successes and failures that are recorded meanwhile come in between.
pub pause_holds :
    (cb : CircuitBreaker) (calls : List Call)
    → cb.enabled ≡ true
    → cb.is_open ≡ true
    → All (Between cb.tripped_at (cb.tripped_at + cb.pause_duration)) calls
    → All (λ a. a ≡ false) (answers cb calls)
pause_holds cb calls on opened h =
    paused cb.tripped_at (cb.tripped_at + cb.pause_duration) cb calls
      (record { on = on; opened = opened; since = omega arith; tripped = omega arith }) h

-- Once the pause of an enabled breaker is over, `Allow` closes it and answers yes, and it takes more
-- than the next failure to open it again: the outcomes from before the trip no longer count.
pause_ends :
    (cb : CircuitBreaker) (now recorded tripped : Time)
    → cb.enabled ≡ true
    → cb.is_open ≡ true
    → cb.tripped_at + cb.pause_duration ≤ now
    → let (answer, cb') = allow now cb in
      (answer ≡ true)
      × (cb'.is_open ≡ false)
      × ((record_failure recorded tripped cb').is_open ≡ false)
unfolding allow record_failure record_outcome maybe_trip
pause_ends cb now recorded tripped on opened over = (ground arith, ground arith, ground arith)
