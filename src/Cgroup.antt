-- ===== src/Cgroup.antt =====
-- pkg/cgroup/resolver.go: the metadata of the containers by the number of their cgroup. A Go string is
-- its bytes.
pub mod Paths
pub mod Pods
pub mod Scan
pub mod Resolver
mod Tests
