-- ===== src/Guardrails/Breaker.antt =====
-- internal/controller/guardrails/circuit_breaker.go: the breaker that pauses all actions when too
-- many of them fail. `RecordFailure` reads the clock when it records and again when it trips.
pub mod Tripping
pub mod Pause
use self_healing_kubernetes.Base.{
  ℕ, ◌+◌, ◌*◌, ◌/◌, String, Bool, true, false, not, Option, none, some, List, [], ◌∷◌, ◌++◌, length,
  keep, tally, ltb, leb, nat_eq, if◌then◌else◌, Time, Duration, minute, within,
}
use self_healing_kubernetes.Guardrails.Policy.{Policy}

pub record OutcomeRecord : Type 0 where
  pub at : Time
  pub success : Bool

pub record CircuitBreaker : Type 0 where
  pub history : List OutcomeRecord
  pub tripped_at : Time
  pub is_open : Bool
  pub failure_pct : ℕ
  pub eval_window : Duration
  pub pause_duration : Duration
  pub enabled : Bool

-- `d, _ := time.ParseDuration(s); if d == 0 { d = fallback }`
unfoldable pub duration_or : (String → Option Duration) → String → Duration → Duration
duration_or parse_duration s fallback = elim (parse_duration s) [
  | none ↦ fallback
  | some d ↦ if nat_eq d 0 then fallback else d
]

unfoldable pub new_circuit_breaker : (String → Option Duration) → Policy → CircuitBreaker
unfolding duration_or
new_circuit_breaker parse_duration policy =
    let cb = policy.circuit_breaker in
    record {
      history = [];
      tripped_at = 0;
      is_open = false;
      failure_pct = cb.trigger_on_failure_pct;
      eval_window = duration_or parse_duration cb.evaluation_window (5 * minute);
      pause_duration = duration_or parse_duration cb.pause_duration (10 * minute);
      enabled = cb.enabled;
    }

unfoldable pub allow : Time → CircuitBreaker → Bool × CircuitBreaker
allow now cb =
    if not cb.enabled
    then (true, cb)
    else if cb.is_open
    then (if leb (cb.tripped_at + cb.pause_duration) now
        then (true, record cb { is_open = false; history = [] })
        else (false, cb))
    else (true, cb)

-- `record`
unfoldable pub record_outcome : Bool → Time → CircuitBreaker → CircuitBreaker
record_outcome success now cb = record cb {
  history =
      keep (λ r. within now cb.eval_window r.at) cb.history
      ++ record { at = now; success = success } ∷ [];
}

abbrev pub failures : List OutcomeRecord → ℕ
failures = tally λ r. not r.success

unfoldable pub maybe_trip : Time → CircuitBreaker → CircuitBreaker
maybe_trip now cb =
    if ltb (length cb.history) 2
    then cb
    else if ltb cb.failure_pct (failures cb.history * 100 / length cb.history)
    then record cb { is_open = true; tripped_at = now }
    else cb

unfoldable pub record_success : Time → CircuitBreaker → CircuitBreaker
record_success now cb = if not cb.enabled then cb else record_outcome true now cb

unfoldable pub record_failure : (recorded tripped : Time) → CircuitBreaker → CircuitBreaker
record_failure recorded tripped cb =
    if not cb.enabled then cb else maybe_trip tripped (record_outcome false recorded cb)
