-- ===== src/Collector/Cpu/Deltas.antt =====
-- pkg/collector/cpu.go: what a collection remembers and what it leaves in the kernel's map.
use self_healing_kubernetes.Base.{
  ℕ, ◌≡◌, refl, ap, ◌∙◌, inl, inr, Bool, true, false, not, ◌&&◌, Option, none, some, List, [], ◌∷◌,
  any, arith, if◌then◌else◌, Keyed, lookup, insert, erase, lookup-insert, lookup-erase, Distinct,
  nat_Eq, ◌==◌, Time, Option-cases, Bool-cases,
}
use self_healing_kubernetes.Base.Bytes.{Bytes, text}
use self_healing_kubernetes.Base.Strings.{bytes_eq}
use self_healing_kubernetes.Cgroup.Scan.{ContainerInfo}
use self_healing_kubernetes.Collector.Polling.{Floats, Polled, poll, delete_keys, elapsed}
use self_healing_kubernetes.Collector.Cpu.{
  CpuStats, CpuSample, CpuCollector, guarded_count, bare_sample, with_deltas, numa_of, cpu_sample,
  next_prev, collect,
}

-- A Boolean for an answer of the resolver.
abbrev pub is_known : Option ContainerInfo → Bool
is_known none = false
is_known (some info) = true

-- What is remembered of a value of the map.
abbrev pub guarded : CpuStats → CpuStats
guarded v = record v { thread_count = guarded_count v.thread_count }

abbrev pub if_known : Bool → Option CpuStats → Option CpuStats
if_known true (some v) = some (guarded v)
if_known true none = none
if_known false o = none

abbrev remembered : Bool → Option CpuStats → (old : Option CpuStats) → Option CpuStats
remembered true (some v) old = some (guarded v)
remembered true none old = old
remembered false o old = old

module _ (floats : Floats) {S : Type 0} (resolve : ℕ → S → S × Option ContainerInfo)
    (read_numa_stats : Bytes → floats.Float × floats.Float) (known : ℕ → Option ContainerInfo)
    (stable : (id : ℕ) (s : S) → (resolve id s).1 ≡ known id) (now : Time)
    (c : CpuCollector floats) where
  stats_of : CpuSample floats → CpuStats
  stats_of x = record {
    total_ns = x.total_ns;
    runq_latency_ns = x.runq_latency_ns;
    ctx_switches = x.ctx_switches;
    thread_count = x.thread_count;
  }

  walk : Keyed ℕ CpuStats → S → Polled S ℕ (CpuSample floats)
  walk m s = poll resolve (λ id. id) (cpu_sample floats resolve read_numa_stats now c) m s

  numa-keeps :
      (o : Option ContainerInfo) (x : CpuSample floats)
      → ((numa_of floats resolve read_numa_stats o x).cgroup_id ≡ x.cgroup_id)
        × (stats_of (numa_of floats resolve read_numa_stats o x) ≡ stats_of x)
  unfolding stats_of
  numa-keeps none x = (refl, refl)
  numa-keeps (some info) x = elim (Bool-cases (bytes_eq info.cgroup_path [])) [
    | inl e ↦ rw e (refl, refl)
    | inr e ↦ rw e (refl, refl)
  ]

  deltas-keep :
      (seconds : floats.Float) (v : CpuStats) (o : Option CpuStats) (x : CpuSample floats)
      → ((with_deltas floats seconds v o x).cgroup_id ≡ x.cgroup_id)
        × (stats_of (with_deltas floats seconds v o x) ≡ stats_of x)
  unfolding stats_of
  deltas-keep seconds v none x = (refl, refl)
  deltas-keep seconds v (some prev) x = (refl, refl)

  sample-keeps :
      (id : ℕ) (v : CpuStats) (info : ContainerInfo) (s : S)
      → ((cpu_sample floats resolve read_numa_stats now c id v info s).1.cgroup_id ≡ id)
        × (stats_of (cpu_sample floats resolve read_numa_stats now c id v info s).1 ≡ guarded v)
  unfolding stats_of
  sample-keeps id v info s =
      let bare = bare_sample floats now id v (text info.name) in
      let seconds = elapsed floats now c.prev_at in
      let numa =
        numa-keeps (resolve id s).1 (with_deltas floats seconds v (lookup id c.prev) bare) in
      let deltas = deltas-keep seconds v (lookup id c.prev) bare in
      (numa.0 ∙ deltas.0, numa.1 ∙ deltas.1)

  after : ℕ → S → CpuStats → ContainerInfo → S
  after k s v info = (cpu_sample floats resolve read_numa_stats now c k v info (resolve k s).0).0

  taken : ℕ → S → CpuStats → ContainerInfo → CpuSample floats
  taken k s v info = (cpu_sample floats resolve read_numa_stats now c k v info (resolve k s).0).1

  walk-unknown :
      (k : ℕ) (v : CpuStats) (m : Keyed ℕ CpuStats) (s : S)
      → known k ≡ none
      → ((walk ((k, v) ∷ m) s).samples ≡ (walk m (resolve k s).0).samples)
        × ((walk ((k, v) ∷ m) s).to_delete ≡ k ∷ (walk m (resolve k s).0).to_delete)
  unfolding walk poll
  walk-unknown k v m s h = (ground (arith, stable k s, h), ground (arith, stable k s, h))

  walk-known :
      (k : ℕ) (v : CpuStats) (m : Keyed ℕ CpuStats) (s : S) (info : ContainerInfo)
      → known k ≡ some info
      → ((walk ((k, v) ∷ m) s).samples ≡ taken k s v info ∷ (walk m (after k s v info)).samples)
        × ((walk ((k, v) ∷ m) s).to_delete ≡ (walk m (after k s v info)).to_delete)
  unfolding walk poll taken after
  walk-known k v m s info h = (ground (arith, stable k s, h), ground (arith, stable k s, h))

  next_prev-taken :
      (k : ℕ) (v : CpuStats) (info : ContainerInfo) (s : S) (samples : List (CpuSample floats))
      (prev : Keyed ℕ CpuStats)
      → next_prev floats (taken k s v info ∷ samples) prev
        ≡ next_prev floats samples (insert k (guarded v) prev)
  unfolding next_prev taken stats_of
  next_prev-taken k v info s samples prev =
      let keeps = sample-keeps k v info (resolve k s).0 in
      ap (next_prev floats samples) (
        ap (λ j. insert j (stats_of (taken k s v info)) prev) keeps.0
        ∙ ap (λ stats. insert k stats prev) keeps.1)

  lookup-next_prev :
      (id : ℕ) (m : Keyed ℕ CpuStats) (s : S) (prev : Keyed ℕ CpuStats)
      → Distinct m
      → lookup id (next_prev floats (walk m s).samples prev)
        ≡ remembered (is_known (known id)) (lookup id m) (lookup id prev)
  unfolding next_prev lookup Distinct walk poll
  lookup-next_prev id [] s prev h = ground arith
  lookup-next_prev id ((k, v) ∷ m) s prev h = elim (Option-cases (known k)) [
    | inl unknown ↦ ground (
      arith,
      walk-unknown k v m s unknown,
      lookup-next_prev id m (resolve k s).0 prev h.1,
      ap (λ j. lookup j m) {x = k} {y = id},
      ap known {x = k} {y = id},
    )
    | inr (info, e) ↦ ground (
      arith,
      walk-known k v m s info e,
      next_prev-taken k v info s (walk m (after k s v info)).samples prev,
      lookup-next_prev id m (after k s v info) (insert k (guarded v) prev) h.1,
      lookup-insert k id (guarded v) prev,
      ap (λ j. lookup j m) {x = k} {y = id},
      ap known {x = k} {y = id},
    )
  ]

  any-to_delete :
      (id : ℕ) (m : Keyed ℕ CpuStats) (s : S)
      → any (λ k. k == id) (walk m s).to_delete
        ≡ any (λ entry. entry.0 == id) m && not (is_known (known id))
  unfolding walk poll
  any-to_delete id [] s = ground arith
  any-to_delete id ((k, v) ∷ m) s = elim (Option-cases (known k)) [
    | inl unknown ↦ ground (
      arith,
      walk-unknown k v m s unknown,
      any-to_delete id m (resolve k s).0,
      ap known {x = k} {y = id},
    )
    | inr (info, e) ↦ ground (
      arith,
      walk-known k v m s info e,
      any-to_delete id m (after k s v info),
      ap known {x = k} {y = id},
    )
  ]

lookup-delete_keys :
    (id : ℕ) (keys : List ℕ) (m : Keyed ℕ CpuStats)
    → lookup id (delete_keys keys m) ≡ (if any (λ k. k == id) keys then none else lookup id m)
unfolding delete_keys
lookup-delete_keys id [] m = refl
lookup-delete_keys id (k ∷ keys) m =
    ground (arith, lookup-delete_keys id keys (erase k m), lookup-erase k id m)

lookup-nil : (id : ℕ) → lookup {V = CpuStats} id [] ≡ none
unfolding lookup
lookup-nil id = refl

lookup-absent :
    (id : ℕ) (m : Keyed ℕ CpuStats) → any (λ entry. entry.0 == id) m ≡ false → lookup id m ≡ none
unfolding lookup
lookup-absent id [] h = refl
lookup-absent id ((k, v) ∷ m) h = ground (arith, lookup-absent id m)

-- After a collection whose walk over the kernel's map had no error, from a map without repeated keys and
-- with a resolver whose answers do not depend on its state: the collector remembers exactly the cgroups
-- of the map that the resolver knows, each with its counters of now, and the map keeps exactly those.
pub collect-remembers :
    (floats : Floats) {S : Type 0} (resolve : ℕ → S → S × Option ContainerInfo)
    (read_numa_stats : Bytes → floats.Float × floats.Float) (known : ℕ → Option ContainerInfo)
    (now : Time) (c : CpuCollector floats) (cpu_map : Keyed ℕ CpuStats) (s : S) (id : ℕ)
    → ((id : ℕ) (s : S) → (resolve id s).1 ≡ known id)
    → Distinct cpu_map
    → (lookup id (collect floats resolve read_numa_stats now false cpu_map c s).collector.prev
        ≡ if_known (is_known (known id)) (lookup id cpu_map))
      × (lookup id (collect floats resolve read_numa_stats now false cpu_map c s).cpu_map
          ≡ (if is_known (known id) then lookup id cpu_map else none))
unfolding collect walk
collect-remembers floats resolve read_numa_stats known now c cpu_map s id stable h = (
  ground (
    arith,
    lookup-next_prev floats resolve read_numa_stats known stable now c id cpu_map s [] h,
    lookup-nil id,
  ),
  ground (
    arith,
    any-to_delete floats resolve read_numa_stats known stable now c id cpu_map s,
    lookup-delete_keys id
        (walk floats resolve read_numa_stats known stable now c cpu_map s).to_delete cpu_map,
    lookup-absent id cpu_map,
  ),
)
