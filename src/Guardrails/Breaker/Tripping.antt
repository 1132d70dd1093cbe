-- ===== src/Guardrails/Breaker/Tripping.antt =====
-- When a failure trips the breaker.
use self_healing_kubernetes.Base.{
  ℕ, suc, ◌*◌, ◌/◌, ◌≤◌, ◌<◌, ◌≡◌, ◌↔◌, true, false, arith, length, Time,
}
use self_healing_kubernetes.Guardrails.Breaker.{
  CircuitBreaker, failures, record_outcome, maybe_trip, record_failure,
}

-- A quotient that is rounded down passes `p` exactly when the numerator reaches `p + 1` divisors.
pub lt-div_iff : (p a n : ℕ) → 0 < n → (p < a / n) ↔ (suc p * n ≤ a)
lt-div_iff p a n h = (λ q. grind arith, λ q. grind arith)

maybe_trip-opens_iff :
    (now : Time) (cb : CircuitBreaker)
    → cb.is_open ≡ false
    → ((maybe_trip now cb).is_open ≡ true) ↔ (
        (2 ≤ length cb.history)
        × (suc cb.failure_pct * length cb.history ≤ failures cb.history * 100))
unfolding maybe_trip
maybe_trip-opens_iff now cb closed = (
  ground (arith, lt-div_iff cb.failure_pct (failures cb.history * 100) (length cb.history)),
  ground (arith, lt-div_iff cb.failure_pct (failures cb.history * 100) (length cb.history)),
)

record_failure-maybe_trip :
    (recorded tripped : Time) (cb : CircuitBreaker)
    → cb.enabled ≡ true
    → record_failure recorded tripped cb ≡ maybe_trip tripped (record_outcome false recorded cb)
unfolding record_failure
record_failure-maybe_trip recorded tripped cb on = ground arith

-- From a closed, enabled breaker a failure opens it exactly when the window then holds at least two
-- outcomes and the failures among them reach `failure_pct + 1` percent: the percentage is rounded
-- down before the comparison.
pub record_failure-opens_iff :
    (recorded tripped : Time) (cb : CircuitBreaker)
    → cb.enabled ≡ true
    → cb.is_open ≡ false
    → let h = (record_outcome false recorded cb).history in
      ((record_failure recorded tripped cb).is_open ≡ true)
      ↔ ((2 ≤ length h) × (suc cb.failure_pct * length h ≤ failures h * 100))
unfolding record_outcome
record_failure-opens_iff recorded tripped cb on closed =
    rw (record_failure-maybe_trip recorded tripped cb on)
      (maybe_trip-opens_iff tripped (record_outcome false recorded cb) closed)
