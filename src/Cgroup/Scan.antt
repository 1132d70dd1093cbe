-- ===== src/Cgroup/Scan.antt =====
-- pkg/cgroup/resolver.go: a scan of the tree of cgroups, with the pods of the node as they are known then.
use self_healing_kubernetes.Base.{
  ℕ, Option, none, some, List, [], ◌∷◌, ◌++◌, length, take, ltb, if◌then◌else◌, Keyed, lookup,
  insert, nat_Eq,
}
use self_healing_kubernetes.Base.Bytes.{Bytes}
use self_healing_kubernetes.Base.Strings.{bytes_eq, bytes_Eq}
use self_healing_kubernetes.Cgroup.Paths.{slash, label_from_path, extract_container_id}
use self_healing_kubernetes.Cgroup.Pods.{
  Pod, K8sInfo, TaskEntry, PodGroup, index_pods, first_pods, fetch_kubelet_pods_from_task_config,
}

pub record ContainerInfo : Type 0 where
  pub cgroup_id : ℕ
  pub name : Bytes
  pub cgroup_path : Bytes
  pub namespace : Bytes
  pub pod : Bytes
  pub container : Bytes

-- A call of the function that walks the tree: with an error, for what is no directory or cannot be
-- examined, or for the directory with an inode and a path below the root.
pub data Visit : Type 0 where
  failed other : Visit
  directory : (inode : ℕ) (rel : Bytes) → Visit

-- What a scan reads of the world. `docker_name` is empty where the daemon gives no name, `visits` are
-- the calls that `filepath.WalkDir` makes, `range_groups` and `range_history` are the orders in which Go
-- ranges over a map.
pub record World : Type 0 where
  pub tasks : Option (List TaskEntry)
  pub http : Option (List Pod)
  pub https : Option (List Pod)
  pub docker_name : Bytes → Bytes
  pub visits : List Visit
  pub range_groups : Keyed Bytes PodGroup → List PodGroup
  pub range_history : Keyed ℕ ContainerInfo → List ℕ

unfoldable pub fetch_kubelet_pods : World → Option (List Pod)
fetch_kubelet_pods world =
    first_pods (fetch_kubelet_pods_from_task_config world.range_groups world.tasks) world.http
      world.https

abbrev pub fresh_k8s : World → Keyed Bytes K8sInfo
fresh_k8s world = elim (fetch_kubelet_pods world) [ none ↦ [] | some pods ↦ index_pods pods [] ]

abbrev pub with_k8s : K8sInfo → ContainerInfo → ContainerInfo
with_k8s k info = record info {
  name = k.namespace ++ slash ∷ (k.pod ++ slash ∷ k.container);
  namespace = k.namespace;
  pod = k.pod;
  container = k.container;
}

-- By the whole identifier first, then by its first 12 characters.
abbrev pub find_k8s : Keyed Bytes K8sInfo → Bytes → Option K8sInfo
find_k8s k8s id = elim (lookup id k8s) [
  | some k ↦ some k
  | none ↦ if ltb 12 (length id) then lookup (take 12 id) k8s else none
]

abbrev pub enriched : Option K8sInfo → ContainerInfo → ContainerInfo
enriched none info = info
enriched (some k) info = with_k8s k info

unfoldable pub container_info :
    (docker_name : Bytes → Bytes)
    → Keyed Bytes K8sInfo
    → (inode : ℕ) → (rel : Bytes) → ContainerInfo
container_info docker_name k8s inode rel =
    let info : ContainerInfo = record {
      cgroup_id = inode;
      name = label_from_path docker_name rel;
      cgroup_path = rel;
      namespace = [];
      pod = [];
      container = [];
    } in
    let id = extract_container_id rel in
    if bytes_eq id [] then info else enriched (find_k8s k8s id) info

abbrev pub visit :
    (docker_name : Bytes → Bytes)
    → Keyed Bytes K8sInfo
    → Visit
    → Keyed ℕ ContainerInfo
    → Keyed ℕ ContainerInfo
visit docker_name k8s failed fresh = fresh
visit docker_name k8s other fresh = fresh
visit docker_name k8s (directory inode rel) fresh =
    insert inode (container_info docker_name k8s inode rel) fresh

abbrev pub visit_all :
    (docker_name : Bytes → Bytes)
    → Keyed Bytes K8sInfo
    → List Visit
    → Keyed ℕ ContainerInfo
    → Keyed ℕ ContainerInfo
visit_all docker_name k8s [] fresh = fresh
visit_all docker_name k8s (v ∷ visits) fresh =
    visit_all docker_name k8s visits (visit docker_name k8s v fresh)

unfoldable pub scan : World → Keyed ℕ ContainerInfo
scan world = visit_all world.docker_name (fresh_k8s world) world.visits []
