-- ===== src/Cgroup/Resolver/Tracking.antt =====
-- pkg/cgroup/resolver.go: every entry of the history is that of a cgroup that the cache lists again or
-- that waits for its eviction.
use self_healing_kubernetes.Base.{
  ℕ, ◌≡◌, subst, sym, ◌⊎◌, inl, inr, Bool, true, false, not, ◌&&◌, ◌||◌, none, some, List, [], ◌∷◌,
  arith, if◌then◌else◌, Keyed, lookup, nat_Eq, Time, Option-cases, Distinct, Distinct-insert,
}
use self_healing_kubernetes.Base.Bytes.{Bytes}
use self_healing_kubernetes.Cgroup.Pods.{K8sInfo}
use self_healing_kubernetes.Cgroup.Scan.{
  ContainerInfo, World, Visit, failed, other, directory, visit_all, scan, fresh_k8s,
}
use self_healing_kubernetes.Cgroup.Resolver.{
  Resolver, entries, has, after_scan, deleted_of, moved_scan, listed_scan, refresh, known, evicted,
  evict_stale_entries, lookup_cgroup, empty_resolver, set_k8s_mode, Call, refreshes, looks_up,
  evicts, sets_k8s_mode, call, call_all, new_resolver,
}
use self_healing_kubernetes.Cgroup.Resolver.Deleting.{
  Kept, moved, cap_history-Kept, lookup-erase_listed, lookup-move_unlisted, expired,
  evict_each-Kept, Distinct-move_unlisted, Distinct-erase_listed, Distinct-cap_history,
  Distinct-evict_each,
}

-- The cache and the times have no identifier twice; a time belongs to an entry of the history whose
-- cgroup is not in the cache; an entry of the history without a time is that of a cgroup in the cache.
pub record IsTracked (r : Resolver) : Type 0 where
  pub cache_distinct : Distinct (entries r.cache)
  pub times_distinct : Distinct r.deleted_at
  pub time_of :
      (id : ℕ)
      → has id r.deleted_at ≡ true
      → (has id r.history ≡ true) × (has id (entries r.cache) ≡ false)
  pub place_of :
      (id : ℕ) → has id r.history ≡ true → (has id r.deleted_at || has id (entries r.cache)) ≡ true

Distinct-visit_all :
    (docker_name : Bytes → Bytes) (k8s : Keyed Bytes K8sInfo) (visits : List Visit)
    (fresh : Keyed ℕ ContainerInfo)
    → Distinct fresh
    → Distinct (visit_all docker_name k8s visits fresh)
Distinct-visit_all docker_name k8s [] fresh h = h
Distinct-visit_all docker_name k8s (failed ∷ visits) fresh h =
    Distinct-visit_all docker_name k8s visits fresh h
Distinct-visit_all docker_name k8s (other ∷ visits) fresh h =
    Distinct-visit_all docker_name k8s visits fresh h
Distinct-visit_all docker_name k8s (directory inode rel ∷ visits) fresh h =
    Distinct-visit_all docker_name k8s visits _ (Distinct-insert inode _ fresh h)

Distinct-scan : (world : World) → Distinct (scan world)
unfolding scan Distinct
Distinct-scan world = Distinct-visit_all world.docker_name (fresh_k8s world) world.visits [] tt

module _ (now : Time) (world : World) (r : Resolver) (tracked : IsTracked r) where
  -- What a scan makes of one identifier.
  after_scan_lem :
      (id : ℕ)
      → (keeps : Bool) × (lookup id (after_scan now world r).history ≡ (
          if keeps
          then moved
              (lookup id (entries r.cache))
              (has id (scan world))
              (lookup id (entries r.cache))
              (lookup id r.history)
          else none))
        × (lookup id (after_scan now world r).deleted_at ≡ (
            if keeps && not (has id (scan world))
            then moved
                (lookup id (entries r.cache))
                (has id (scan world))
                (some now)
                (lookup id r.deleted_at)
            else none))
  after_scan_lem id =
      let moves =
        lookup-move_unlisted now (scan world) id (entries r.cache) (deleted_of r)
          tracked.cache_distinct in
      let caps = cap_history-Kept id world.range_history (listed_scan now world r) in
      (
        caps.0,
        ground (arith, caps.1.history_kept, moves),
        ground (
          arith,
          caps.1.times_kept,
          moves,
          lookup-erase_listed id (scan world) (moved_scan now world r).deleted_at,
        ),
      )

  pub refresh-IsTracked : IsTracked (refresh now world r)
  unfolding refresh
  refresh-IsTracked = record {
    cache_distinct = Distinct-scan world;
    times_distinct = Distinct-cap_history world.range_history (listed_scan now world r) (
        Distinct-erase_listed (scan world) (moved_scan now world r).deleted_at (
          Distinct-move_unlisted now (scan world) (entries r.cache) (deleted_of r)
            tracked.times_distinct));
    time_of = λ id h. ground (arith, after_scan_lem id, tracked.time_of id, tracked.place_of id);
    place_of = λ id h. ground (arith, after_scan_lem id, tracked.time_of id, tracked.place_of id);
  }

module _ (now : Time) (r : Resolver) (tracked : IsTracked r) where
  -- An eviction drops an entry from both maps exactly if its time is 20 s back or more.
  pub evicted-Kept :
      (id : ℕ) → Kept id (not (expired now (lookup id r.deleted_at))) (deleted_of r) (evicted now r)
  evicted-Kept id = evict_each-Kept now id r.deleted_at (deleted_of r) tracked.times_distinct

  pub evict_stale_entries-IsTracked : IsTracked (evict_stale_entries now r)
  unfolding evict_stale_entries
  evict_stale_entries-IsTracked = record {
    cache_distinct = tracked.cache_distinct;
    times_distinct = Distinct-evict_each now r.deleted_at (deleted_of r) tracked.times_distinct;
    time_of = λ id h.
        let kept = evicted-Kept id in
        ground (arith, kept.history_kept, kept.times_kept, tracked.time_of id);
    place_of = λ id h.
        let kept = evicted-Kept id in
        ground (arith, kept.history_kept, kept.times_kept, tracked.place_of id);
  }

lookup_cgroup-state :
    (now : Time) (world : World) (id : ℕ) (r : Resolver)
    → ((lookup_cgroup now world id r).0 ≡ r)
      ⊎ ((lookup_cgroup now world id r).0 ≡ refresh now world r)
unfolding lookup_cgroup
lookup_cgroup-state now world id r = ground (arith, Option-cases r.cache, Option-cases (known id r))

IsTracked-lookup_cgroup :
    (now : Time) (world : World) (id : ℕ) (r : Resolver)
    → IsTracked r
    → IsTracked (lookup_cgroup now world id r).0
IsTracked-lookup_cgroup now world id r h = elim (lookup_cgroup-state now world id r) [
  | inl same ↦ subst IsTracked (sym same) h
  | inr scanned ↦ subst IsTracked (sym scanned) (refresh-IsTracked now world r h)
]

call-IsTracked : (c : Call) (r : Resolver) → IsTracked r → IsTracked (call c r)
unfolding call set_k8s_mode
call-IsTracked (refreshes now world) r h = refresh-IsTracked now world r h
call-IsTracked (looks_up now world id) r h = IsTracked-lookup_cgroup now world id r h
call-IsTracked (evicts now) r h = evict_stale_entries-IsTracked now r h
call-IsTracked (sets_k8s_mode enabled) r h = record {
  cache_distinct = h.cache_distinct;
  times_distinct = h.times_distinct;
  time_of = h.time_of;
  place_of = h.place_of;
}

call_all-IsTracked_from :
    (calls : List Call) (r : Resolver) → IsTracked r → IsTracked (call_all calls r)
unfolding call_all
call_all-IsTracked_from [] r h = h
call_all-IsTracked_from (c ∷ calls) r h =
    call_all-IsTracked_from calls (call c r) (call-IsTracked c r h)

empty_resolver-IsTracked : IsTracked empty_resolver
unfolding Distinct lookup
empty_resolver-IsTracked = record {
  cache_distinct = tt;
  times_distinct = tt;
  time_of = λ id h. cc;
  place_of = λ id h. cc;
}

-- After any calls on a new resolver, at any times and with anything read by the scans, the cache and
-- the times of deletion have no cgroup twice; a cgroup with a time of deletion has an entry in the
-- history and none in the cache; and an entry of the history is that of a cgroup with a time of
-- deletion or of one in the cache: none stays behind without its eviction.
pub call_all-IsTracked :
    (now : Time) (world : World) (calls : List Call)
    → IsTracked (call_all calls (new_resolver now world))
unfolding new_resolver
call_all-IsTracked now world calls =
    call_all-IsTracked_from calls _
      (refresh-IsTracked now world empty_resolver empty_resolver-IsTracked)
