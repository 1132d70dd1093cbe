-- ===== src/Ebpf/Mapper/Adding.antt =====
-- internal/ebpf/mapper.go: a pod that was added is the answer for its cgroups.
use mathlib.Core.Option.{some_inj}
use self_healing_kubernetes.Base.{
  ℕ, ◌≡◌, ap, ◌∙◌, inl, true, Option, none, some, get_elem?, lookup, insert, nat_Eq, Time,
}
use self_healing_kubernetes.Base.Bytes.{Bytes}
use self_healing_kubernetes.Base.Strings.{bytes_Eq}
use self_healing_kubernetes.Ebpf.Mapper.{
  PodInfo, Pod, pod_object, Mapper, Walks, names_pod, on_pod_add, resolve_cgroup_path, known_path,
  remember_path, first_path, walk_cgroup_fs, resolve_container_id, object_of, cached, by_index,
  by_path, resolve_slow, cached_info, resolve,
}
use self_healing_kubernetes.Ebpf.Mapper.Indexing.{is_listed, PointsTo, index_all-PointsTo}

remembered :
    (cgroup : ℕ) (m : Mapper) (o : Option Bytes) (path : Bytes)
    → (remember_path cgroup m o).1 ≡ some path
    → o ≡ some path
remembered cgroup m none path e = e
remembered cgroup m (some new) path e = e

module _ (pod : Pod) where
  cached-names_pod :
      (now : Time) (id : ℕ) (m : Mapper) (ref : ℕ) (o : Option PodInfo)
      → names_pod pod o ≡ true
      → names_pod pod (cached now id m ref o).1 ≡ true
  cached-names_pod now id m ref none h = h
  cached-names_pod now id m ref (some info) h = h

  by_index-names_pod :
      (now : Time) (id : ℕ) (m : Mapper) (o : Option ℕ)
      → names_pod pod (object_of m o) ≡ true
      → names_pod pod (by_index now id m o).1 ≡ true
  by_index-names_pod now id m none h = h
  by_index-names_pod now id m (some ref) h = cached-names_pod now id m ref (get_elem? m.store ref) h

  by_path-names_pod :
      (now : Time) (cgroup : ℕ) (id : Bytes) (m : Mapper) (path : Bytes)
      → resolve_container_id path ≡ some id
      → PointsTo pod id m
      → names_pod pod (by_path now cgroup (m, some path)).1 ≡ true
  by_path-names_pod now cgroup id m path found h =
      rw found (by_index-names_pod now cgroup m (lookup id m.container_index) h)

  remember_path-names_pod :
      (now : Time) (cgroup : ℕ) (id : Bytes) (m : Mapper) (o : Option Bytes) (path : Bytes)
      → o ≡ some path
      → resolve_container_id path ≡ some id
      → PointsTo pod id m
      → names_pod pod (by_path now cgroup (remember_path cgroup m o)).1 ≡ true
  remember_path-names_pod now cgroup id m none path e found h = cc
  remember_path-names_pod now cgroup id m (some new) path e found h =
      by_path-names_pod now cgroup id
        (record m { cgroup_path_cache = insert cgroup new m.cgroup_path_cache }) new
        (ap resolve_container_id (some_inj.0 e) ∙ found) h

  known_path-names_pod :
      (now : Time) (walks : Walks) (cgroup : ℕ) (id : Bytes) (m : Mapper) (o : Option Bytes)
      (path : Bytes)
      → (known_path walks cgroup m o).1 ≡ some path
      → resolve_container_id path ≡ some id
      → PointsTo pod id m
      → names_pod pod (by_path now cgroup (known_path walks cgroup m o)).1 ≡ true
  known_path-names_pod now walks cgroup id m (some known) path e found h =
      by_path-names_pod now cgroup id m known (ap resolve_container_id (some_inj.0 e) ∙ found) h
  known_path-names_pod now walks cgroup id m none path e found h =
      remember_path-names_pod now cgroup id m
        (first_path (walk_cgroup_fs walks.unified cgroup) (walk_cgroup_fs walks.memory cgroup)) path
        (remembered cgroup m
          (first_path (walk_cgroup_fs walks.unified cgroup) (walk_cgroup_fs walks.memory cgroup))
          path e)
        found h

  -- A pod that the informer added is the answer for a cgroup that is not in the cache and whose path has the
  -- identifier of one of its containers, whatever the index had before; if the event was handled without
  -- a panic.
  pub resolve-on_pod_add :
      (added now : Time) (walks : Walks) (cgroup : ℕ) (m next : Mapper) (id path : Bytes)
      → on_pod_add added (pod_object pod) m ≡ some next
      → is_listed id pod.container_statuses ≡ true
      → cached_info cgroup next ≡ none
      → (resolve_cgroup_path walks cgroup next).1 ≡ some path
      → resolve_container_id path ≡ some id
      → names_pod pod (resolve now walks cgroup next).1 ≡ true
  unfolding on_pod_add resolve resolve_slow resolve_cgroup_path
  resolve-on_pod_add added now walks cgroup m next id path ran listed cold e found = rw cold (
      known_path-names_pod now walks cgroup id next (lookup cgroup next.cgroup_path_cache) path e
        found (index_all-PointsTo pod added pod.container_statuses m next id ran (inl listed)))
