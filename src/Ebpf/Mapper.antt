-- ===== src/Ebpf/Mapper.antt =====
-- internal/ebpf/mapper.go: the pod of a cgroup, by the caches of the mapper and the events of the pods. A
-- `*PodInfo` is a position in the store, since the index and the cache share the objects. A Go string is
-- its bytes.
pub mod Deleting
pub mod Indexing
pub mod Adding
use self_healing_kubernetes.Base.{
  ℕ, zero, suc, ◌+◌, ◌*◌, Bool, true, false, not, ◌&&◌, ◌||◌, Option, none, some, List, [], ◌∷◌,
  ◌++◌, all, length, get_elem?, set, take, leb, ltb, nat_eq, if◌then◌else◌, Keyed, lookup, insert,
  erase, keep_entries, nat_Eq, Time, Duration, within,
}
use self_healing_kubernetes.Base.Bytes.{Bytes, codes}
use self_healing_kubernetes.Base.Strings.{bytes_eq, bytes_Eq, has_prefix, trim_prefix, before_last}
use self_healing_kubernetes.Cgroup.Pods.{ContainerStatus}
use self_healing_kubernetes.Cgroup.Scan.{Visit, failed, other, directory}

pub record PodInfo : Type 0 where
  pub pod_name : Bytes
  pub namespace : Bytes
  pub deployment : Bytes
  pub container : Bytes
  pub node_name : Bytes
  pub cached_at : Time

abbrev pub cache_ttl : Duration
cache_ttl = 60 * 1_000_000_000

pub record OwnerReference : Type 0 where
  pub kind : Bytes
  pub name : Bytes

-- What the mapper reads of a pod of Kubernetes.
pub record Pod : Type 0 where
  pub name : Bytes
  pub namespace : Bytes
  pub node_name : Bytes
  pub owner_references : List OwnerReference
  pub container_statuses : List ContainerStatus

-- An object of the informer: a pod, the record of a deletion that was missed, with its last object if
-- that is a pod, or another.
pub data Object : Type 0 where
  pod_object : Pod → Object
  tombstone : Option Pod → Object
  other_object : Object

pub record Mapper : Type 0 where
  pub store : List PodInfo
  pub pod_cache : Keyed ℕ ℕ
  pub container_index : Keyed Bytes ℕ
  pub cgroup_path_cache : Keyed ℕ Bytes

unfoldable pub new_mapper : Mapper
new_mapper = record { store = []; pod_cache = []; container_index = []; cgroup_path_cache = [] }

abbrev pub is_owner_kind : Bytes → Bool
is_owner_kind kind =
    bytes_eq kind (codes "ReplicaSet")
    || bytes_eq kind (codes "StatefulSet")
    || bytes_eq kind (codes "DaemonSet")
    || bytes_eq kind (codes "Job")

-- `name[:idx]` for the last dash of the name, if it is not the first byte.
abbrev pub without_hash : Bytes → Bytes
without_hash name = elim (before_last 45 name) [
  | none ↦ name
  | some front ↦ if bytes_eq front [] then name else front
]

unfoldable pub owner_name : List OwnerReference → Bytes
owner_name [] = []
owner_name (ref ∷ refs) =
    let rest = owner_name refs in
    if is_owner_kind ref.kind
    then if bytes_eq ref.kind (codes "ReplicaSet") then without_hash ref.name else ref.name
    else rest

abbrev pub cut_id : Bytes → Bytes
cut_id id = if leb 64 (length id) then take 64 id else id

abbrev pub strip_first : (prefixes : List Bytes) → Bytes → Bytes
strip_first [] raw = []
strip_first (prefix ∷ prefixes) raw =
    let rest = strip_first prefixes raw in
    if has_prefix prefix raw then cut_id (trim_prefix prefix raw) else rest

unfoldable pub normalise_container_id : Bytes → Bytes
normalise_container_id raw =
    strip_first (codes "docker://" ∷ codes "containerd://" ∷ codes "cri-o://" ∷ []) raw

abbrev pub info_of : Time → Pod → ContainerStatus → PodInfo
info_of now pod cs = record {
  pod_name = pod.name;
  namespace = pod.namespace;
  deployment = owner_name pod.owner_references;
  container = cs.name;
  node_name = pod.node_name;
  cached_at = now;
}

-- `none` is the panic on `containerID[:12]` of an identifier that is shorter.
abbrev pub index_container : Time → Pod → ContainerStatus → Mapper → Option Mapper
index_container now pod cs m =
    let id = normalise_container_id cs.container_id in
    if bytes_eq id []
    then some m
    else if ltb (length id) 12
    then none
    else some (record m {
      store = m.store ++ info_of now pod cs ∷ [];
      container_index = insert id (length m.store) m.container_index;
    })

unfoldable pub index_all : Time → Pod → List ContainerStatus → Mapper → Option Mapper
index_all now pod [] m = some m
index_all now pod (cs ∷ statuses) m = elim (index_container now pod cs m) [
  | none ↦ none
  | some next ↦ index_all now pod statuses next
]

unfoldable pub on_pod_add : Time → Object → Mapper → Option Mapper
on_pod_add now (pod_object pod) m = index_all now pod pod.container_statuses m
on_pod_add now (tombstone last) m = some m
on_pod_add now other_object m = some m

abbrev pub deleted_pod : Object → Option Pod
deleted_pod (pod_object pod) = some pod
deleted_pod (tombstone last) = last
deleted_pod other_object = none

abbrev pub is_info_of : Pod → PodInfo → Bool
is_info_of pod info = bytes_eq info.pod_name pod.name && bytes_eq info.namespace pod.namespace

-- `info.PodName == pod.Name && info.Namespace == pod.Namespace` for an object of the store.
abbrev pub names_pod : Pod → Option PodInfo → Bool
names_pod pod none = false
names_pod pod (some info) = is_info_of pod info

unfoldable pub unindex : List ContainerStatus → Keyed Bytes ℕ → Keyed Bytes ℕ
unindex [] index = index
unindex (cs ∷ statuses) index =
    let id = normalise_container_id cs.container_id in
    unindex statuses (if bytes_eq id [] then index else erase id index)

abbrev pub forget_pod : Pod → Mapper → Mapper
forget_pod pod m = record m {
  container_index = unindex pod.container_statuses m.container_index;
  pod_cache = keep_entries (λ id ref. not (names_pod pod (get_elem? m.store ref))) m.pod_cache;
}

unfoldable pub on_pod_delete : Object → Mapper → Mapper
on_pod_delete object m = elim (deleted_pod object) [ none ↦ m | some pod ↦ forget_pod pod m ]

-- The path of the first directory with the inode.
unfoldable pub walk_cgroup_fs : List Visit → (target : ℕ) → Option Bytes
walk_cgroup_fs [] target = none
walk_cgroup_fs (failed ∷ visits) target = walk_cgroup_fs visits target
walk_cgroup_fs (other ∷ visits) target = walk_cgroup_fs visits target
walk_cgroup_fs (directory inode path ∷ visits) target =
    let rest = walk_cgroup_fs visits target in if nat_eq inode target then some path else rest

-- The calls that a walk makes below /sys/fs/cgroup and below /sys/fs/cgroup/memory.
pub record Walks : Type 0 where
  pub unified : List Visit
  pub memory : List Visit

abbrev pub first_path : Option Bytes → Option Bytes → Option Bytes
first_path (some path) other_path = some path
first_path none other_path = other_path

abbrev pub remember_path : ℕ → Mapper → Option Bytes → Mapper × Option Bytes
remember_path id m none = (m, none)
remember_path id m (some path) =
    (record m { cgroup_path_cache = insert id path m.cgroup_path_cache }, some path)

-- With the path of the cache, if there is one.
abbrev pub known_path : Walks → ℕ → Mapper → Option Bytes → Mapper × Option Bytes
known_path walks id m (some path) = (m, some path)
known_path walks id m none =
    remember_path id m
      (first_path (walk_cgroup_fs walks.unified id) (walk_cgroup_fs walks.memory id))

unfoldable pub resolve_cgroup_path : Walks → ℕ → Mapper → Mapper × Option Bytes
resolve_cgroup_path walks id m = known_path walks id m (lookup id m.cgroup_path_cache)

abbrev pub is_hex : ℕ → Bool
is_hex c = leb 97 c && leb c 102 || leb 48 c && leb c 57

-- The first match of `[a-f0-9]{64}`.
unfoldable pub resolve_container_id : (path : Bytes) → Option Bytes
resolve_container_id [] = none
resolve_container_id (c ∷ path) =
    let rest = resolve_container_id path in
    if leb 64 (length (c ∷ path)) && all is_hex (take 64 (c ∷ path))
    then some (take 64 (c ∷ path))
    else rest

-- The object is marked with the time in the store, which its other users share, and goes into the cache.
abbrev pub cached : Time → ℕ → Mapper → (ref : ℕ) → Option PodInfo → Mapper × Option PodInfo
cached now id m ref none = (m, none)
cached now id m ref (some info) = (
  record m {
    store = set m.store ref (record info { cached_at = now });
    pod_cache = insert id ref m.pod_cache;
  },
  some (record info { cached_at = now }),
)

abbrev pub by_index : Time → ℕ → Mapper → Option ℕ → Mapper × Option PodInfo
by_index now id m none = (m, none)
by_index now id m (some ref) = cached now id m ref (get_elem? m.store ref)

abbrev pub by_container : Time → ℕ → Mapper → Option Bytes → Mapper × Option PodInfo
by_container now id m none = (m, none)
by_container now id m (some container) = by_index now id m (lookup container m.container_index)

abbrev pub by_path : Time → ℕ → Mapper × Option Bytes → Mapper × Option PodInfo
by_path now id (m, none) = (m, none)
by_path now id (m, some path) = by_container now id m (resolve_container_id path)

unfoldable pub resolve_slow : Time → Walks → ℕ → Mapper → Mapper × Option PodInfo
resolve_slow now walks id m = by_path now id (resolve_cgroup_path walks id m)

-- With the cached object, if there is one.
abbrev pub resolve_with : Time → Walks → ℕ → Mapper → Option PodInfo → Mapper × Option PodInfo
resolve_with now walks id m none = resolve_slow now walks id m
resolve_with now walks id m (some info) =
    if within now cache_ttl info.cached_at
    then (m, some info)
    else resolve_slow now walks id (record m { pod_cache = erase id m.pod_cache })

abbrev pub object_of : Mapper → Option ℕ → Option PodInfo
object_of m none = none
object_of m (some ref) = get_elem? m.store ref

abbrev pub cached_info : ℕ → Mapper → Option PodInfo
cached_info id m = object_of m (lookup id m.pod_cache)

-- `none` is an error.
unfoldable pub resolve : Time → Walks → ℕ → Mapper → Mapper × Option PodInfo
resolve now walks id m = resolve_with now walks id m (cached_info id m)

unfoldable pub invalidate : ℕ → Mapper → Mapper
invalidate id m = record m {
  pod_cache = erase id m.pod_cache;
  cgroup_path_cache = erase id m.cgroup_path_cache;
}
