-- ===== src/Cgroup/Resolver/Vanishing.antt =====
-- pkg/cgroup/resolver.go: how long a cgroup that is no more listed can be looked up.
use self_healing_kubernetes.Base.{
  ℕ, ◌+◌, ◌<◌, ◌≤◌, ◌≡◌, none, some, List, [], ◌∷◌, arith, length, All, lookup, nat_Eq, Time,
}
use self_healing_kubernetes.Cgroup.Scan.{ContainerInfo, World, scan}
use self_healing_kubernetes.Cgroup.Resolver.{
  Resolver, entries, cap_history, history_cap, deleted_of, moved_scan, refresh, known,
  evict_stale_entries, history_ttl,
}
use self_healing_kubernetes.Cgroup.Resolver.Deleting.{lookup-erase_listed, lookup-move_unlisted}
use self_healing_kubernetes.Cgroup.Resolver.Tracking.{
  IsTracked, evicted-Kept, refresh-IsTracked, evict_stale_entries-IsTracked,
}

unfoldable pub evict_at : List Time → Resolver → Resolver
evict_at [] r = r
evict_at (now ∷ times) r = evict_at times (evict_stale_entries now r)

-- The cgroup is in the history alone, deleted at `time`.
record Waits (id : ℕ) (info : ContainerInfo) (time : Time) (r : Resolver) : Type 0 where
  pub tracked : IsTracked r
  pub in_history : lookup id r.history ≡ some info
  pub not_cached : lookup id (entries r.cache) ≡ none
  pub deleted_then : lookup id r.deleted_at ≡ some time

module _ (id : ℕ) (info : ContainerInfo) where
  known-Waits : (time : Time) (r : Resolver) → Waits id info time r → known id r ≡ some info
  unfolding known
  known-Waits time r w = ground (arith, w.not_cached, w.in_history)

  evict-Waits :
      (time now : Time) (r : Resolver)
      → now < time + history_ttl
      → Waits id info time r
      → Waits id info time (evict_stale_entries now r)
  unfolding evict_stale_entries
  evict-Waits time now r early w =
      let kept = evicted-Kept now r w.tracked id in
      record {
        tracked = evict_stale_entries-IsTracked now r w.tracked;
        in_history = ground (arith, kept.history_kept, w.in_history, w.deleted_then);
        not_cached = w.not_cached;
        deleted_then = ground (arith, kept.times_kept, w.deleted_then);
      }

  evict_at-Waits :
      (time : Time) (times : List Time) (r : Resolver)
      → All (λ now. now < time + history_ttl) times
      → Waits id info time r
      → Waits id info time (evict_at times r)
  unfolding evict_at
  evict_at-Waits time [] r early w = w
  evict_at-Waits time (now ∷ times) r early w =
      evict_at-Waits time times _ early.1 (evict-Waits time now r early.0 w)

  late-none :
      (time now : Time) (r : Resolver)
      → time + history_ttl ≤ now
      → Waits id info time r
      → known id (evict_stale_entries now r) ≡ none
  unfolding known evict_stale_entries
  late-none time now r late w =
      let kept = evicted-Kept now r w.tracked id in
      ground (arith, kept.history_kept, w.deleted_then, w.not_cached)

  refresh-Waits :
      (time : Time) (world : World) (r : Resolver)
      → IsTracked r
      → lookup id (entries r.cache) ≡ some info
      → lookup id (scan world) ≡ none
      → length (moved_scan time world r).history ≤ history_cap
      → Waits id info time (refresh time world r)
  unfolding refresh cap_history
  refresh-Waits time world r tracked cached unlisted room =
      let moves =
        lookup-move_unlisted time (scan world) id (entries r.cache) (deleted_of r)
          tracked.cache_distinct in
      record {
        tracked = refresh-IsTracked time world r tracked;
        in_history = ground (arith, moves, cached, unlisted);
        not_cached = unlisted;
        deleted_then = ground (
          arith,
          moves,
          cached,
          unlisted,
          lookup-erase_listed id (scan world) (moved_scan time world r).deleted_at,
        );
      }

-- A cgroup of the cache that a scan does not find keeps its answer, whatever evictions come less than
-- 20 s after that scan, and has none after an eviction that comes 20 s after the scan or later; if the
-- maps are as every run leaves them and the history needs no shortening.
pub refresh-evict_at :
    (id : ℕ) (info : ContainerInfo) (time late : Time) (times : List Time) (world : World)
    (r : Resolver)
    → IsTracked r
    → lookup id (entries r.cache) ≡ some info
    → lookup id (scan world) ≡ none
    → length (moved_scan time world r).history ≤ history_cap
    → All (λ now. now < time + history_ttl) times
    → time + history_ttl ≤ late
    → (known id (evict_at times (refresh time world r)) ≡ some info)
      × (known id (evict_stale_entries late (evict_at times (refresh time world r))) ≡ none)
refresh-evict_at id info time late times world r tracked cached unlisted room early h =
    let waits =
      evict_at-Waits id info time times _ early
        (refresh-Waits id info time world r tracked cached unlisted room) in
    (known-Waits id info time _ waits, late-none id info time late _ h waits)
