-- ===== src/Collector/Io/Latency.antt =====
-- pkg/collector/io.go: the latencies that a collection remembers.
use self_healing_kubernetes.Base.{
  ℕ, ◌≡◌, false, Option, some, List, [], ◌∷◌, arith, Keyed, lookup, insert, lookup-insert,
  lookup-nil-ne, nat_Eq, Time,
}
use self_healing_kubernetes.Cgroup.Scan.{ContainerInfo}
use self_healing_kubernetes.Collector.Polling.{Floats, last_value}
use self_healing_kubernetes.Collector.Io.{
  IoStats, IoSample, IoCollector, zero_stats, next_prev, collect,
}

-- A remembered value, if there is one, has the latencies of `val`.
abbrev HasLatencies : (val : IoStats) → Option IoStats → Type 0
HasLatencies val o =
    (p : IoStats)
    → o ≡ some p
    → (p.read_latency_ns ≡ val.read_latency_ns) × (p.write_latency_ns ≡ val.write_latency_ns)

module _ (floats : Floats) where
  next_prev-HasLatencies :
      (val : IoStats) (samples : List (IoSample floats)) (prev : Keyed ℕ IoStats) (id : ℕ)
      → HasLatencies val (lookup id prev)
      → HasLatencies val (lookup id (next_prev floats val samples prev))
  unfolding next_prev
  next_prev-HasLatencies val [] prev id h = h
  next_prev-HasLatencies val (s ∷ samples) prev id h =
      let new : IoStats = record {
        read_bytes = s.read_bytes;
        write_bytes = s.write_bytes;
        read_ios = s.read_ios;
        write_ios = s.write_ios;
        read_latency_ns = val.read_latency_ns;
        write_latency_ns = val.write_latency_ns;
      } in
      next_prev-HasLatencies val samples (insert s.cgroup_id new prev) id
        (λ p e. ground (arith, h p, e, lookup-insert s.cgroup_id id new prev))

  module _ {S : Type 0} (resolve : ℕ → S → S × Option ContainerInfo) where
    -- After a collection whose walk over the map had no error, each latency that is remembered for a
    -- cgroup is that of the map's last entry, whichever cgroup that entry is of.
    pub collect-latency :
        (now : Time) (io_map : Keyed ℕ IoStats) (c : IoCollector floats) (s : S) (id : ℕ)
        (p : IoStats)
        → lookup id (collect floats resolve now false io_map c s).collector.prev ≡ some p
        → (p.read_latency_ns ≡ (last_value io_map zero_stats).read_latency_ns)
          × (p.write_latency_ns ≡ (last_value io_map zero_stats).write_latency_ns)
    unfolding collect
    collect-latency now io_map c s id p =
        next_prev-HasLatencies (last_value io_map zero_stats) _ [] id
          (λ q e. absurd (lookup-nil-ne id q e)) p
