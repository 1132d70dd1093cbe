-- ===== src/Collector/Lineage/Layout.antt =====
-- ebpf/lineage.c: the layout of `struct fork_event`, which pkg/collector/lineage.go reads back.
use self_healing_kubernetes.Base.{
  ℕ, ◌<◌, ◌^◌, ◌≡◌, refl, ap, ◌∙◌, List, [], ◌∷◌, ◌++◌, arith, length,
}
use self_healing_kubernetes.Base.Bytes.{
  Bytes, bytes_of, laid_out, width, slice, little_endian, slice-laid_out, little_endian-bytes_of,
  length-bytes_of,
}
use self_healing_kubernetes.Collector.Lineage.{ForkEventRaw, parse_fork_event}

-- The fields of the C struct in their order; the last is its padding and what follows the struct.
abbrev pub fork_event_fields : ForkEventRaw → (rest : Bytes) → List Bytes
fork_event_fields r rest =
    bytes_of 8 r.cgroup_id
    ∷ bytes_of 8 r.fork_ts_ns
    ∷ bytes_of 4 r.ppid
    ∷ bytes_of 4 r.tgid
    ∷ r.parent_comm
    ∷ r.child_comm
    ∷ bytes_of 1 r.comm_final
    ∷ rest
    ∷ []

-- The numbers fit the fields of the struct.
pub record IsForkEvent (r : ForkEventRaw) : Type 0 where
  pub cgroup_id_fits : r.cgroup_id < 256 ^ 8
  pub fork_ts_ns_fits : r.fork_ts_ns < 256 ^ 8
  pub ppid_fits : r.ppid < 256 ^ 4
  pub tgid_fits : r.tgid < 256 ^ 4
  pub parent_comm_fits : length r.parent_comm ≡ 16
  pub child_comm_fits : length r.child_comm ≡ 16
  pub comm_final_fits : r.comm_final < 256

-- A number that is laid out after other fields is read back.
number_at :
    (before : List Bytes) (n x : ℕ) (after : List Bytes) (from : ℕ)
    → width before ≡ from
    → x < 256 ^ n
    → little_endian (slice from n (laid_out (before ++ bytes_of n x ∷ after))) ≡ x
number_at before n x after from h fits =
    ap little_endian (slice-laid_out before (bytes_of n x) after from n h (length-bytes_of n x))
    ∙ little_endian-bytes_of n x fits

-- The bytes of the C struct, with anything as its padding and after it, are parsed to the fields they
-- were made of, if these fit.
pub parse_fork_event-laid_out :
    (r : ForkEventRaw) (rest : Bytes)
    → IsForkEvent r
    → parse_fork_event (laid_out (fork_event_fields r rest)) ≡ r
unfolding parse_fork_event
parse_fork_event-laid_out r rest fits =
    let a = bytes_of 8 r.cgroup_id in
    let b = bytes_of 8 r.fork_ts_ns in
    let c = bytes_of 4 r.ppid in
    let d = bytes_of 4 r.tgid in
    let e = bytes_of 1 r.comm_final in
    let p = r.parent_comm in
    let q = r.child_comm in
    cc (
      number_at [] 8 r.cgroup_id (b ∷ c ∷ d ∷ p ∷ q ∷ e ∷ rest ∷ []) 0 refl fits.cgroup_id_fits,
      number_at (a ∷ []) 8 r.fork_ts_ns (c ∷ d ∷ p ∷ q ∷ e ∷ rest ∷ []) 8 refl fits.fork_ts_ns_fits,
      number_at (a ∷ b ∷ []) 4 r.ppid (d ∷ p ∷ q ∷ e ∷ rest ∷ []) 16 refl fits.ppid_fits,
      number_at (a ∷ b ∷ c ∷ []) 4 r.tgid (p ∷ q ∷ e ∷ rest ∷ []) 20 refl fits.tgid_fits,
      slice-laid_out (a ∷ b ∷ c ∷ d ∷ []) p (q ∷ e ∷ rest ∷ []) 24 16 refl fits.parent_comm_fits,
      slice-laid_out (a ∷ b ∷ c ∷ d ∷ p ∷ []) q (e ∷ rest ∷ []) 40 16
          (omega (arith, fits.parent_comm_fits)) fits.child_comm_fits,
      number_at (a ∷ b ∷ c ∷ d ∷ p ∷ q ∷ []) 1 r.comm_final (rest ∷ []) 56
          (omega (arith, fits.parent_comm_fits, fits.child_comm_fits)) fits.comm_final_fits,
    )
