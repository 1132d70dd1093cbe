-- ===== src/ProcessGraph.antt =====
-- pkg/event and pkg/graph: the process graph that the security events build.
pub mod Event
pub mod Node
pub mod Graph
pub mod Reads
pub mod Snapshot
mod Tests
