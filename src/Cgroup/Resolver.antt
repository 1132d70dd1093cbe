-- ===== src/Cgroup/Resolver.antt =====
-- pkg/cgroup/resolver.go: the resolver's cache of the cgroups that exist, its history of those that were
-- deleted, and the scan that renews both. The locks are left out: a call is one step at one time.
pub mod Capped
pub mod Deleting
pub mod Tracking
pub mod Vanishing
use self_healing_kubernetes.Base.{
  ℕ, ◌+◌, ◌*◌, Bool, true, false, Option, none, some, List, [], ◌∷◌, ◌++◌, length, take, leb, ltb,
  if◌then◌else◌, Keyed, lookup, insert, erase, nat_Eq, Time, Duration, second, stale,
}
use self_healing_kubernetes.Base.Bytes.{Bytes}
use self_healing_kubernetes.Base.Strings.{bytes_eq, bytes_Eq}
use self_healing_kubernetes.Cgroup.Scan.{ContainerInfo, World, scan, fresh_k8s}
use self_healing_kubernetes.Cgroup.Paths.{slash, label_from_path, extract_container_id}
use self_healing_kubernetes.Cgroup.Pods.{
  Pod, K8sInfo, TaskEntry, PodGroup, index_pods, first_pods, fetch_kubelet_pods_from_task_config,
}

abbrev pub refresh_period : Duration
refresh_period = 10 * 1_000_000_000

abbrev pub staleness : Duration
staleness = 100_000_000

abbrev pub history_cap : ℕ
history_cap = 1000

-- `cache` is `none` where the map is nil, in the zero value of the type.
pub record Resolver : Type 0 where
  pub cache : Option (Keyed ℕ ContainerInfo)
  pub history : Keyed ℕ ContainerInfo
  pub deleted_at : Keyed ℕ Time
  pub last_refresh : Time
  pub k8s_cache : Keyed Bytes K8sInfo
  pub k8s_mode : Bool
  pub refresh_period_d : Duration

-- The zero value, which the commands use where `NewResolver` fails.
abbrev pub zero_resolver : Resolver
zero_resolver = record {
  cache = none;
  history = [];
  deleted_at = [];
  last_refresh = 0;
  k8s_cache = [];
  k8s_mode = false;
  refresh_period_d = 0;
}

-- `NewResolver` before its first scan.
abbrev pub empty_resolver : Resolver
empty_resolver = record {
  cache = some [];
  history = [];
  deleted_at = [];
  last_refresh = 0;
  k8s_cache = [];
  k8s_mode = false;
  refresh_period_d = refresh_period;
}

-- A range over a nil map is empty.
abbrev pub entries : Option (Keyed ℕ ContainerInfo) → Keyed ℕ ContainerInfo
entries none = []
entries (some cache) = cache

-- `_, ok := m[k]`
abbrev pub has {ℓ} : {V : Type ℓ} → ℕ → Keyed ℕ V → Bool
has k m = elim (lookup k m) [ none ↦ false | some v ↦ true ]

-- The history and the times of deletion.
pub record Deleted : Type 0 where
  pub history : Keyed ℕ ContainerInfo
  pub deleted_at : Keyed ℕ Time

unfoldable pub move_one :
    Time → (fresh : Keyed ℕ ContainerInfo) → ℕ → ContainerInfo → Deleted → Deleted
move_one now fresh id info d =
    if has id fresh
    then d
    else record { history = insert id info d.history; deleted_at = insert id now d.deleted_at }

-- The loop that moves the cgroups that are no more listed into the history.
unfoldable pub move_unlisted : Time → (fresh cache : Keyed ℕ ContainerInfo) → Deleted → Deleted
move_unlisted now fresh [] d = d
move_unlisted now fresh ((id, info) ∷ cache) d =
    move_unlisted now fresh cache (move_one now fresh id info d)

-- `for id := range fresh { delete(r.deletedAt, id) }`
unfoldable pub erase_listed : (fresh : Keyed ℕ ContainerInfo) → Keyed ℕ Time → Keyed ℕ Time
erase_listed [] times = times
erase_listed ((id, info) ∷ fresh) times = erase_listed fresh (erase id times)

abbrev pub forget : ℕ → Deleted → Deleted
forget id d = record { history = erase id d.history; deleted_at = erase id d.deleted_at }

-- The loop that shortens the history, over the identifiers in the order of the range.
unfoldable pub forget_until_fits : (ids : List ℕ) → Deleted → Deleted
forget_until_fits [] d = d
forget_until_fits (id ∷ ids) d =
    let rest = forget_until_fits ids (forget id d) in
    if leb (length (forget id d).history) history_cap then forget id d else rest

unfoldable pub cap_history : (range : Keyed ℕ ContainerInfo → List ℕ) → Deleted → Deleted
cap_history range d =
    if ltb history_cap (length d.history) then forget_until_fits (range d.history) d else d

abbrev pub deleted_of : Resolver → Deleted
deleted_of r = record { history = r.history; deleted_at = r.deleted_at }

abbrev pub moved_scan : Time → World → Resolver → Deleted
moved_scan now world r = move_unlisted now (scan world) (entries r.cache) (deleted_of r)

abbrev pub listed_scan : Time → World → Resolver → Deleted
listed_scan now world r = record (moved_scan now world r) {
  deleted_at = erase_listed (scan world) (moved_scan now world r).deleted_at;
}

-- What a scan makes of the history: three loops.
abbrev pub after_scan : Time → World → Resolver → Deleted
after_scan now world r = cap_history world.range_history (listed_scan now world r)

unfoldable pub refresh : Time → World → Resolver → Resolver
refresh now world r = record r {
  cache = some (scan world);
  history = (after_scan now world r).history;
  deleted_at = (after_scan now world r).deleted_at;
  k8s_cache = fresh_k8s world;
  last_refresh = now;
}

unfoldable pub new_resolver : Time → World → Resolver
new_resolver now world = refresh now world empty_resolver

unfoldable pub set_k8s_mode : Bool → Resolver → Resolver
set_k8s_mode enabled r = record r {
  k8s_mode = enabled;
  refresh_period_d = if enabled then 2 * 1_000_000_000 else refresh_period;
}

-- In the cache, else in the history.
unfoldable pub known : ℕ → Resolver → Option ContainerInfo
known id r = elim (lookup id (entries r.cache)) [
  | some info ↦ some info
  | none ↦ lookup id r.history
]

-- `world` is what a scan would read.
unfoldable pub lookup_cgroup : Time → World → ℕ → Resolver → Resolver × Option ContainerInfo
lookup_cgroup now world id r = elim r.cache [
  | none ↦ (r, none)
  | some cache ↦ elim (known id r) [
    | some info ↦ (r, some info)
    | none ↦
        if stale now staleness r.last_refresh
        then (refresh now world r, known id (refresh now world r))
        else (r, none)
  ]
]

abbrev pub history_ttl : Duration
history_ttl = 2 * 10 * 1_000_000_000

-- `now.Sub(t) >= ttl` is a comparison without a subtraction.
unfoldable pub evict_one : Time → ℕ → Time → Deleted → Deleted
evict_one now id time d = if leb (time + history_ttl) now then forget id d else d

-- The loop of `evictStaleEntries`.
unfoldable pub evict_each : Time → (times : Keyed ℕ Time) → Deleted → Deleted
evict_each now [] d = d
evict_each now ((id, time) ∷ times) d = evict_each now times (evict_one now id time d)

abbrev pub evicted : Time → Resolver → Deleted
evicted now r = evict_each now r.deleted_at (deleted_of r)

unfoldable pub evict_stale_entries : Time → Resolver → Resolver
evict_stale_entries now r = record r {
  history = (evicted now r).history;
  deleted_at = (evicted now r).deleted_at;
}

-- A method of the resolver, with its time and what it reads.
pub data Call : Type 0 where
  refreshes : Time → World → Call
  looks_up : Time → World → ℕ → Call
  evicts : Time → Call
  sets_k8s_mode : Bool → Call

unfoldable pub call : Call → Resolver → Resolver
call (refreshes now world) r = refresh now world r
call (looks_up now world id) r = (lookup_cgroup now world id r).0
call (evicts now) r = evict_stale_entries now r
call (sets_k8s_mode enabled) r = set_k8s_mode enabled r

unfoldable pub call_all : List Call → Resolver → Resolver
call_all [] r = r
call_all (c ∷ calls) r = call_all calls (call c r)
