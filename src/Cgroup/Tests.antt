-- ===== src/Cgroup/Tests.antt =====
-- A node with a system unit and a container of containerd, and a later scan without the unit.
use self_healing_kubernetes.Base.{
  ℕ, true, nat_Eq, insert, ◌≤◌, ◌≡◌, refl, none, some, List, [], ◌∷◌, map, arith, length, Keyed,
  lookup,
}
use self_healing_kubernetes.Base.Bytes.{Bytes, codes}
use self_healing_kubernetes.Cgroup.Paths.{
  label_from_path, is_scope, scope_id, extract_container_id, clean_container_id,
}
use self_healing_kubernetes.Cgroup.Paths.Identifiers.{
  containerd, scope_path, status_id, container_id_lem,
}
use self_healing_kubernetes.Cgroup.Pods.{
  Pod, PodGroup, index_pods, index_pod, index_statuses, index_status,
  fetch_kubelet_pods_from_task_config,
}
use self_healing_kubernetes.Cgroup.Scan.{
  ContainerInfo, World, Visit, directory, other, scan, fetch_kubelet_pods, container_info,
}
use self_healing_kubernetes.Cgroup.Resolver.{
  Resolver, entries, moved_scan, refresh, new_resolver, known, evict_stale_entries, call_all,
  refreshes, looks_up, evicts, sets_k8s_mode, move_unlisted, move_one, erase_listed, cap_history,
}
use self_healing_kubernetes.Cgroup.Resolver.Tracking.{IsTracked, call_all-IsTracked}
use self_healing_kubernetes.Cgroup.Resolver.Vanishing.{evict_at, refresh-evict_at}
use self_healing_kubernetes.Cgroup.Resolver.Capped.{Ranges, refresh-capped}

abbrev pod : Pod
pod = record {
  name = codes "web-0";
  namespace = codes "shop";
  uid = codes "u1";
  container_statuses =
      record { name = codes "nginx"; container_id = codes "containerd://0123456789abcdef" } ∷ [];
  init_container_statuses = [];
  ephemeral_container_statuses = [];
}

abbrev no_groups : Keyed Bytes PodGroup → List PodGroup
no_groups groups = map (λ entry. entry.1) groups

abbrev keys_of : Keyed ℕ ContainerInfo → List ℕ
keys_of m = map (λ entry. entry.0) m

abbrev world_with : List Visit → World
world_with visits = record {
  tasks = none;
  http = some (pod ∷ []);
  https = none;
  docker_name = λ id. [];
  visits = visits;
  range_groups = no_groups;
  range_history = keys_of;
}

abbrev container_path : Bytes
container_path = codes "kubepods.slice/cri-containerd-0123456789abcdef.scope"

abbrev both : World
both = world_with (directory 7 (codes "init.scope") ∷ other ∷ directory 8 container_path ∷ [])

abbrev container_alone : World
container_alone = world_with (directory 8 container_path ∷ [])

abbrev unit_info : ContainerInfo
unit_info = record {
  cgroup_id = 7;
  name = codes "init.scope";
  cgroup_path = codes "init.scope";
  namespace = [];
  pod = [];
  container = [];
}

abbrev container_info_8 : ContainerInfo
container_info_8 = record {
  cgroup_id = 8;
  name = codes "shop/web-0/nginx";
  cgroup_path = container_path;
  namespace = codes "shop";
  pod = codes "web-0";
  container = codes "nginx";
}

scan-both : scan both ≡ (7, unit_info) ∷ (8, container_info_8) ∷ []
unfolding scan fetch_kubelet_pods index_pods index_pod index_statuses index_status container_info
    lookup insert label_from_path extract_container_id clean_container_id is_scope scope_id
    fetch_kubelet_pods_from_task_config
scan-both = refl

docker_label_test :
    label_from_path (λ id. codes "db") (codes "system.slice/docker-aa.scope") ≡ codes "docker:db"
unfolding label_from_path is_scope
docker_label_test = refl

parent_label_test : label_from_path (λ id. []) (codes "a/b/c") ≡ codes "b/c"
unfolding label_from_path is_scope
parent_label_test = refl

container_id_lem_example :
    (extract_container_id (scope_path containerd (codes "kubepods.slice") (codes "ab"))
      ≡ codes "ab")
    × (clean_container_id (status_id containerd (codes "ab")) ≡ codes "ab")
container_id_lem_example =
    container_id_lem containerd (codes "kubepods.slice") (codes "ab")
      (ground arith, (ground arith, tt))

abbrev first : Resolver
first = call_all [] (new_resolver 100 both)

call_all-IsTracked_example : IsTracked (
    call_all
      (looks_up 500 both 9 ∷ refreshes 1000 container_alone ∷ evicts 2000 ∷ sets_k8s_mode true ∷ [])
      (new_resolver 100 both))
call_all-IsTracked_example =
    call_all-IsTracked 100 both
      (looks_up 500 both 9 ∷ refreshes 1000 container_alone ∷ evicts 2000 ∷ sets_k8s_mode true ∷ [])

first_cache : lookup 7 (entries first.cache) ≡ some unit_info
unfolding call_all new_resolver refresh scan fetch_kubelet_pods index_pods index_pod index_statuses
    index_status container_info lookup insert label_from_path extract_container_id
    clean_container_id is_scope scope_id fetch_kubelet_pods_from_task_config
first_cache = refl

unit_gone : lookup 7 (scan container_alone) ≡ none
unfolding scan fetch_kubelet_pods index_pods index_pod index_statuses index_status container_info
    lookup insert label_from_path extract_container_id clean_container_id is_scope scope_id
    fetch_kubelet_pods_from_task_config
unit_gone = refl

room : length (moved_scan 1000 container_alone first).history ≤ 1000
unfolding call_all new_resolver refresh move_unlisted move_one erase_listed cap_history scan
    fetch_kubelet_pods index_pods index_pod index_statuses index_status container_info lookup insert
    label_from_path extract_container_id clean_container_id is_scope scope_id
    fetch_kubelet_pods_from_task_config
room = omega arith

refresh-evict_at_example :
    (known 7 (evict_at (5000 ∷ 6000 ∷ []) (refresh 1000 container_alone first)) ≡ some unit_info)
    × (known 7 (
          evict_stale_entries 20_000_001_000
            (evict_at (5000 ∷ 6000 ∷ []) (refresh 1000 container_alone first)))
        ≡ none)
refresh-evict_at_example =
    refresh-evict_at 7 unit_info 1000 20_000_001_000 (5000 ∷ 6000 ∷ []) container_alone first
      (call_all-IsTracked 100 both []) first_cache unit_gone room (omega arith, (omega arith, tt))
      (omega arith)

Ranges-keys : (m : Keyed ℕ ContainerInfo) → Ranges (keys_of m) m
unfolding lookup
Ranges-keys [] k h = cc
Ranges-keys ((j, info) ∷ m) k h = ground (arith, Ranges-keys m k)

refresh-capped_example : length (refresh 1000 container_alone first).history ≤ 1000
refresh-capped_example = refresh-capped 1000 container_alone first Ranges-keys
