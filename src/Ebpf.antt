-- ===== src/Ebpf.antt =====
-- internal/ebpf: the mapper from cgroups to pods.
pub mod Mapper
mod Tests
