-- ===== src/Guardrails/RateLimit.antt =====
-- internal/controller/guardrails/ratelimit.go: one action per interval across the cluster.
-- `Allow` reads the clock twice, when it tests and when it records.
pub mod Spacing
use self_healing_kubernetes.Base.{
  ℕ, ◌+◌, ◌-◌, Bool, true, false, if◌then◌else◌, Time, Duration, within,
}

pub record GlobalRateLimiter : Type 0 where
  pub last_action : Time
  pub min_interval : Duration

unfoldable pub new_global_rate_limiter : Duration → GlobalRateLimiter
new_global_rate_limiter min_interval = record { last_action = 0; min_interval = min_interval }

unfoldable pub allow : (tested recorded : Time) → GlobalRateLimiter → Bool × GlobalRateLimiter
allow tested recorded r =
    if within tested r.min_interval r.last_action
    then (false, r)
    else (true, record r { last_action = recorded })

-- `minInterval - elapsed`, which is positive in this branch.
unfoldable pub time_until_next : Time → GlobalRateLimiter → Duration
time_until_next now r =
    if within now r.min_interval r.last_action then r.last_action + r.min_interval - now else 0
