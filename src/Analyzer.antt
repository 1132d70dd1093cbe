-- ===== src/Analyzer.antt =====
-- internal/analyzer: the sliding windows, cooldowns, correlations, rules and the engine.
pub mod Window
pub mod Cooldown
pub mod Correlate
pub mod Rules
pub mod Confidence
pub mod Engine
pub mod Samples
mod Tests
