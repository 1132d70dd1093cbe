-- ===== src/Intelligence.antt =====
-- internal/intelligence: the incidents of a node, from the anomalies of its pods.
pub mod Incident
pub mod Graph
pub mod Aggregator
pub mod Reasoner
pub mod Scorer
mod Tests
