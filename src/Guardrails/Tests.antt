-- ===== src/Guardrails/Tests.antt =====
-- The guardrails on concrete calls.
use self_healing_kubernetes.Base.{
  ◌+◌, ◌*◌, ◌≤◌, ◌≡◌, refl, ◌↔◌, true, false, List, [], ◌∷◌, arith, length, All, tally, string_Eq,
  lookup, insert, Time, second, minute, hour, within,
}
use self_healing_kubernetes.Guardrails.Samples.{parse_duration, policy}
use self_healing_kubernetes.Guardrails.Policy.{max_per_hour, cooldown_for}
use self_healing_kubernetes.Guardrails.RateLimit as Rate
use self_healing_kubernetes.Guardrails.RateLimit.Spacing as Spacing
use self_healing_kubernetes.Guardrails.Cooldown as Cooldown
use self_healing_kubernetes.Guardrails.Cooldown.Invariant.{Spaced}
use self_healing_kubernetes.Guardrails.Cooldown.Replay as Replay
use self_healing_kubernetes.Guardrails.Breaker as Breaker
use self_healing_kubernetes.Guardrails.Breaker.Pause as Pause
use self_healing_kubernetes.Guardrails.Breaker.Tripping as Tripping

abbrev limiter : Rate.GlobalRateLimiter
limiter = record { last_action = 0; min_interval = 10 }

-- Three calls, of which the second comes too early.
abbrev rate_calls : List (Time × Time)
rate_calls = (100, 101) ∷ (105, 106) ∷ (120, 125) ∷ []

rate_grants : Spacing.grants limiter rate_calls ≡ 101 ∷ 125 ∷ []
unfolding Spacing.grants Rate.allow
rate_grants = refl

grants_spaced_example : 101 + 1 * 10 ≤ 125
grants_spaced_example =
    Spacing.grants_spaced limiter rate_calls 0 1 1 101 125
      (omega arith, (omega arith, (omega arith, tt))) (unfold Spacing.grants Rate.allow in refl)
      (unfold Spacing.grants Rate.allow in refl) (omega arith)

abbrev web_restart : Cooldown.CooldownKey
web_restart = record { pod = "web"; namespace = "shop"; action = "restart_pod" }

abbrev api_restart : Cooldown.CooldownKey
api_restart = record { pod = "api"; namespace = "shop"; action = "restart_pod" }

-- Four calls for one pod, one too early and one over the cap, and one for another pod.
abbrev cooldown_calls : List (Time × Cooldown.CooldownKey)
cooldown_calls =
    (minute, web_restart)
    ∷ (minute + second, web_restart)
    ∷ (2 * minute, api_restart)
    ∷ (3 * minute, web_restart)
    ∷ (6 * minute, web_restart)
    ∷ []

Ascending-calls : Replay.Ascending minute cooldown_calls
Ascending-calls = (omega arith, (omega arith, (omega arith, (omega arith, (omega arith, tt)))))

cooldown_grants :
    Replay.grants parse_duration web_restart policy cooldown_calls ≡ minute ∷ 3 * minute ∷ []
unfolding Replay.grants Replay.replay Replay.call Cooldown.new_cooldown_store Cooldown.allow
    Cooldown.entry_of Cooldown.blocked lookup insert cooldown_for max_per_hour
cooldown_grants = refl

hourly_cap_example :
    tally
      (within (6 * minute) hour)
      (Replay.grants parse_duration web_restart policy cooldown_calls)
    ≤ max_per_hour policy "restart_pod"
hourly_cap_example =
    Replay.hourly_cap parse_duration web_restart policy minute (6 * minute) cooldown_calls
      (omega arith) Ascending-calls (omega arith) (unfold max_per_hour lookup in omega arith)

cooldown_kept_example :
    Spaced
      (cooldown_for parse_duration policy "restart_pod")
      (Replay.grants parse_duration web_restart policy cooldown_calls)
cooldown_kept_example =
    Replay.cooldown_kept parse_duration web_restart policy minute cooldown_calls (omega arith)
      Ascending-calls

abbrev used_store : Cooldown.CooldownStore
used_store = record {
  entries = (web_restart, record { last_action = minute; history = minute ∷ [] }) ∷ [];
  policy = policy;
}

abbrev closed : Breaker.CircuitBreaker
closed = record {
  history = record { at = 100; success = true } ∷ [];
  tripped_at = 0;
  is_open = false;
  failure_pct = 49;
  eval_window = 300;
  pause_duration = 600;
  enabled = true;
}

abbrev opened : Breaker.CircuitBreaker
opened = record closed { is_open = true; tripped_at = 200 }

record_failure-opens_iff_example : ((Breaker.record_failure 200 201 closed).is_open ≡ true) ↔ (
    (2 ≤ length (Breaker.record_outcome false 200 closed).history)
    × (50 * length (Breaker.record_outcome false 200 closed).history
        ≤ Breaker.failures (Breaker.record_outcome false 200 closed).history * 100))
record_failure-opens_iff_example = Tripping.record_failure-opens_iff 200 201 closed refl refl

abbrev breaker_calls : List Pause.Call
breaker_calls = Pause.allows 210 ∷ Pause.fails 300 301 ∷ Pause.succeeds 400 ∷ Pause.allows 799 ∷ []

pause_holds_example : All (λ a. a ≡ false) (Pause.answers opened breaker_calls)
pause_holds_example = Pause.pause_holds opened breaker_calls refl refl (
  (omega arith, omega arith),
  ((omega arith, omega arith), ((omega arith, omega arith), ((omega arith, omega arith), tt))),
)
