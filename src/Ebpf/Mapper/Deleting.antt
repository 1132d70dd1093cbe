-- ===== src/Ebpf/Mapper/Deleting.antt =====
-- internal/ebpf/mapper.go: a deleted pod is no longer an answer.
use self_healing_kubernetes.Base.{
  ℕ, ◌≡◌, refl, ap, inl, inr, Bool, true, false, not, ◌&&◌, Option, none, some, List, [], ◌∷◌, any,
  arith, get_elem?, if◌then◌else◌, Keyed, lookup, erase, lookup-erase, keep_entries, nat_Eq, Time,
  within, Bool-cases,
}
use self_healing_kubernetes.Base.Bytes.{Bytes}
use self_healing_kubernetes.Base.Strings.{bytes_eq, bytes_Eq}
use self_healing_kubernetes.Cgroup.Pods.{ContainerStatus}
use self_healing_kubernetes.Ebpf.Mapper.{
  PodInfo, Pod, pod_object, Mapper, Walks, cache_ttl, normalise_container_id, names_pod, unindex,
  forget_pod, on_pod_delete, resolve_cgroup_path, known_path, object_of, remember_path, first_path,
  walk_cgroup_fs, resolve_container_id, cached, by_index, by_container, by_path, resolve_slow,
  resolve_with, cached_info, resolve,
}

-- The identifiers in the status of a pod.
abbrev pub ids_of : List ContainerStatus → List Bytes
ids_of [] = []
ids_of (cs ∷ statuses) = normalise_container_id cs.container_id ∷ ids_of statuses

-- Each container of the index whose object is of the pod is in the status of the pod.
abbrev pub IndexedByStatus : Pod → Mapper → Type 0
IndexedByStatus pod m =
    (id : Bytes) (ref : ℕ)
    → lookup id m.container_index ≡ some ref
    → names_pod pod (get_elem? m.store ref) ≡ true
    → any (λ k. bytes_eq k id && not (bytes_eq k [])) (ids_of pod.container_statuses) ≡ true

lookup-unindex :
    (id : Bytes) (statuses : List ContainerStatus) (index : Keyed Bytes ℕ)
    → lookup id (unindex statuses index) ≡ (
        if any (λ k. bytes_eq k id && not (bytes_eq k [])) (ids_of statuses)
        then none
        else lookup id index)
unfolding unindex
lookup-unindex id [] index = refl
lookup-unindex id (cs ∷ statuses) index =
    let k = normalise_container_id cs.container_id in
    let rest = lookup-unindex id statuses (if bytes_eq k [] then index else erase k index) in
    ground (arith, rest, lookup-erase k id index)

keep_entries-passes :
    (p : ℕ → ℕ → Bool) (k v : ℕ) (m : Keyed ℕ ℕ)
    → lookup k (keep_entries p m) ≡ some v
    → p k v ≡ true
unfolding lookup keep_entries
keep_entries-passes p k v [] h = cc
keep_entries-passes p k v ((j, w) ∷ m) h = ground (
  arith,
  keep_entries-passes p k v m,
  nat_Eq.equal_iff j k,
  ap (λ i. p i w) {x = j} {y = k},
  ap (p k) {x = w} {y = v},
)

module _ (pod : Pod) where
  -- The answer, if there is one, is not of the pod.
  abbrev Clear : Option PodInfo → Type 0
  Clear answer = names_pod pod answer ≡ false

  -- No object of the pod is in the index.
  abbrev Unindexed : Mapper → Type 0
  Unindexed m =
      (id : Bytes) (ref : ℕ)
      → lookup id m.container_index ≡ some ref
      → names_pod pod (get_elem? m.store ref) ≡ false

  cached-Clear :
      (now : Time) (id : ℕ) (m : Mapper) (ref : ℕ) (o : Option PodInfo)
      → Clear o
      → Clear (cached now id m ref o).1
  cached-Clear now id m ref none h = refl
  cached-Clear now id m ref (some info) h = h

  by_index-Clear :
      (now : Time) (id : ℕ) (m : Mapper) (o : Option ℕ)
      → ((ref : ℕ) → o ≡ some ref → names_pod pod (get_elem? m.store ref) ≡ false)
      → Clear (by_index now id m o).1
  by_index-Clear now id m none h = refl
  by_index-Clear now id m (some ref) h =
      cached-Clear now id m ref (get_elem? m.store ref) (h ref refl)

  by_container-Clear :
      (now : Time) (id : ℕ) (m : Mapper) (o : Option Bytes)
      → Unindexed m
      → Clear (by_container now id m o).1
  by_container-Clear now id m none h = refl
  by_container-Clear now id m (some container) h =
      by_index-Clear now id m (lookup container m.container_index) (h container)

  by_path-Clear :
      (now : Time) (id : ℕ) (found : Mapper × Option Bytes)
      → Unindexed found.0
      → Clear (by_path now id found).1
  by_path-Clear now id (m, none) h = refl
  by_path-Clear now id (m, some path) h = by_container-Clear now id m (resolve_container_id path) h

  remember_path-Unindexed :
      (id : ℕ) (m : Mapper) (o : Option Bytes) → Unindexed m → Unindexed (remember_path id m o).0
  remember_path-Unindexed id m none h = h
  remember_path-Unindexed id m (some path) h = h

  known_path-Unindexed :
      (walks : Walks) (id : ℕ) (m : Mapper) (o : Option Bytes)
      → Unindexed m
      → Unindexed (known_path walks id m o).0
  known_path-Unindexed walks id m (some path) h = h
  known_path-Unindexed walks id m none h =
      remember_path-Unindexed id m
        (first_path (walk_cgroup_fs walks.unified id) (walk_cgroup_fs walks.memory id)) h

  slow-Clear :
      (now : Time) (walks : Walks) (id : ℕ) (m : Mapper)
      → Unindexed m
      → Clear (resolve_slow now walks id m).1
  unfolding resolve_slow resolve_cgroup_path
  slow-Clear now walks id m h =
      by_path-Clear now id (resolve_cgroup_path walks id m)
        (known_path-Unindexed walks id m (lookup id m.cgroup_path_cache) h)

  resolve_with-Clear :
      (now : Time) (walks : Walks) (id : ℕ) (m : Mapper) (o : Option PodInfo)
      → Unindexed m
      → Clear o
      → Clear (resolve_with now walks id m o).1
  resolve_with-Clear now walks id m none h c = slow-Clear now walks id m h
  resolve_with-Clear now walks id m (some info) h c =
      elim (Bool-cases (within now cache_ttl info.cached_at)) [
        | inl young ↦ rw young c
        | inr old ↦ rw old (slow-Clear now walks id _ h)
      ]

  forget_pod-Unindexed : (m : Mapper) → IndexedByStatus pod m → Unindexed (forget_pod pod m)
  forget_pod-Unindexed m h id ref found = ground (
    arith,
    lookup-unindex id pod.container_statuses m.container_index,
    found,
    h id ref,
    Bool-cases (names_pod pod (get_elem? m.store ref)),
  )

  object_of-Clear :
      (m : Mapper) (o : Option ℕ)
      → ((ref : ℕ) → o ≡ some ref → not (names_pod pod (get_elem? m.store ref)) ≡ true)
      → Clear (object_of m o)
  object_of-Clear m none h = refl
  object_of-Clear m (some ref) h = ground (arith, h ref refl)

  -- After the deletion of a pod, no cgroup is resolved to it, at any time and whatever the walks over the
  -- cgroups find; if each container of the index whose object is of the pod is in the pod's last status.
  pub resolve-on_pod_delete :
      (m : Mapper) (now : Time) (walks : Walks) (id : ℕ)
      → IndexedByStatus pod m
      → names_pod pod (resolve now walks id (on_pod_delete (pod_object pod) m)).1 ≡ false
  unfolding resolve on_pod_delete
  resolve-on_pod_delete m now walks id h =
      resolve_with-Clear now walks id (forget_pod pod m) (cached_info id (forget_pod pod m))
        (forget_pod-Unindexed m h)
        (object_of-Clear (forget_pod pod m) (lookup id (forget_pod pod m).pod_cache) (λ ref found.
          keep_entries-passes (λ id ref. not (names_pod pod (get_elem? m.store ref))) id ref
            m.pod_cache found))
