-- ===== src/Controller.antt =====
-- internal/controller: the escalation state machine, the healing actions, the outcome observer and
-- the reconciler that composes them behind the guardrails.
pub mod Types
pub mod Escalation
pub mod Kubernetes
pub mod Actions
pub mod Observer
pub mod Reconciler
pub mod Samples
mod Tests
