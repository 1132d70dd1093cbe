-- ===== src/Collector.antt =====
-- pkg/collector: what the collectors share. The resolver of cgroups is a parameter with a state, since a
-- lookup may renew its cache; the records of a ring buffer up to the first failed read are an argument.
mod Draining
pub mod Lineage
pub mod Exec
pub mod Dns
pub mod PrivEsc
pub mod Escape
pub mod Polling
pub mod Io
pub mod Cpu
pub mod Memory
pub mod Network
pub mod Syscall
mod Tests
use self_healing_kubernetes.Base.{
  ℕ, suc, ◌+◌, ◌-◌, ◌%◌, ◌^◌, String, ◌<>◌, Bool, true, false, Option, none, some, List, [], ◌∷◌,
  length, ltb, nat_eq, if◌then◌else◌, Time,
}
use self_healing_kubernetes.Base.Bytes.{Bytes, text, decimal}
use self_healing_kubernetes.Cgroup.Scan.{ContainerInfo, World}
use self_healing_kubernetes.Cgroup.Resolver.{Resolver, lookup_cgroup}

-- `nullTermStr` and `commString`: the bytes before the first zero.
unfoldable pub null_term_str : Bytes → Bytes
null_term_str [] = []
null_term_str (b ∷ bs) = if nat_eq b 0 then [] else b ∷ null_term_str bs

-- `time.Unix(0, int64(ts)+bootOffset)`, whose sum wraps; the offset and the time are 64-bit patterns.
abbrev pub wall_time : (boot_offset ts : ℕ) → Time
wall_time boot_offset ts = (ts + boot_offset) % 2 ^ 64

-- The name of a container, or the number of its cgroup.
abbrev pub container_name : ℕ → Option ContainerInfo → String
container_name id (some info) = text info.name
container_name id none = "cgroup:" <> decimal id

-- `saturatingSub` and `saturatingSubU64`
unfoldable pub saturating_sub : ℕ → ℕ → ℕ
saturating_sub a b = if ltb a b then 0 else a - b

-- The resolver of pkg/cgroup with the number of lookups made; `clock n` is the time of the lookup `n` and
-- what a scan at that time reads.
abbrev pub resolve_with :
    (clock : ℕ → Time × World) → ℕ → Resolver × ℕ → (Resolver × ℕ) × Option ContainerInfo
resolve_with clock id (r, n) =
    let answer = lookup_cgroup (clock n).0 (clock n).1 id r in ((answer.0, suc n), answer.1)

module _ {S E : Type 0} where
  -- The loop that drains a ring buffer: a record shorter than the struct is skipped.
  unfoldable pub drain :
      (raw_size : ℕ) → (event_of : Bytes → S → S × E) → List Bytes → S → S × List E
  drain raw_size event_of [] s = (s, [])
  drain raw_size event_of (record_bytes ∷ records) s = elim (ltb (length record_bytes) raw_size) [
    | true ↦ drain raw_size event_of records s
    | false ↦
        let one = event_of record_bytes s in
        let rest = drain raw_size event_of records one.0 in (rest.0, one.1 ∷ rest.1)
  ]

-- What the writer is given, which may be nil: each event of the drain.
abbrev pub written {ℓ} : {E : Type ℓ} (has_writer : Bool) → List E → List E
written has_writer events = if has_writer then events else []
