-- ===== src/Guardrails.antt =====
-- internal/controller/guardrails: the policy, the global rate limiter, the per-pod cooldowns and
-- the circuit breaker.
pub mod Policy
pub mod RateLimit
pub mod Cooldown
pub mod Breaker
pub mod Samples
mod Tests
