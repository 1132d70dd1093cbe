-- ===== src/Cgroup/Pods.antt =====
-- pkg/cgroup/resolver.go: the pods of the node, from the tasks of containerd or from the kubelet, and
-- the index of their containers. Files, JSON and HTTP are outside: the results are arguments.
use self_healing_kubernetes.Base.{
  Bool, Option, none, some, List, [], ◌∷◌, ◌++◌, map, length, take, ltb, if◌then◌else◌, Keyed,
  lookup, insert, ◌&&◌, not,
}
use self_healing_kubernetes.Base.Bytes.{Bytes, codes}
use self_healing_kubernetes.Base.Strings.{bytes_eq, bytes_Eq}
use self_healing_kubernetes.Cgroup.Paths.{clean_container_id, slash}

pub record ContainerStatus : Type 0 where
  pub name : Bytes
  pub container_id : Bytes

-- An item of the kubelet's list.
pub record Pod : Type 0 where
  pub name : Bytes
  pub namespace : Bytes
  pub uid : Bytes
  pub container_statuses : List ContainerStatus
  pub init_container_statuses : List ContainerStatus
  pub ephemeral_container_statuses : List ContainerStatus

pub record K8sInfo : Type 0 where
  pub namespace : Bytes
  pub pod : Bytes
  pub container : Bytes

abbrev pub index_id : Bytes → K8sInfo → Keyed Bytes K8sInfo → Keyed Bytes K8sInfo
index_id id info fresh =
    if bytes_eq id []
    then fresh
    else if ltb 12 (length id)
    then insert (take 12 id) info (insert id info fresh)
    else insert id info fresh

unfoldable pub index_status :
    (namespace pod : Bytes) → ContainerStatus → Keyed Bytes K8sInfo → Keyed Bytes K8sInfo
index_status namespace pod c fresh =
    index_id (clean_container_id c.container_id)
      (record { namespace = namespace; pod = pod; container = c.name }) fresh

unfoldable pub index_statuses :
    (namespace pod : Bytes) → List ContainerStatus → Keyed Bytes K8sInfo → Keyed Bytes K8sInfo
index_statuses namespace pod [] fresh = fresh
index_statuses namespace pod (c ∷ cs) fresh =
    index_statuses namespace pod cs (index_status namespace pod c fresh)

unfoldable pub index_pod : Pod → Keyed Bytes K8sInfo → Keyed Bytes K8sInfo
index_pod p fresh = index_statuses p.namespace p.name p.ephemeral_container_statuses (
    index_statuses p.namespace p.name p.init_container_statuses
      (index_statuses p.namespace p.name p.container_statuses fresh))

unfoldable pub index_pods : List Pod → Keyed Bytes K8sInfo → Keyed Bytes K8sInfo
index_pods [] fresh = fresh
index_pods (p ∷ pods) fresh = index_pods pods (index_pod p fresh)

-- An entry of containerd's task directory. `annotations` is `none` where the configuration cannot be
-- read or parsed or has no annotations.
pub record TaskEntry : Type 0 where
  pub name : Bytes
  pub is_dir : Bool
  pub annotations : Option (Keyed Bytes Bytes)

pub record PodGroup : Type 0 where
  pub name : Bytes
  pub namespace : Bytes
  pub uid : Bytes
  pub containers : List ContainerStatus

-- `spec.Annotations[key]`
abbrev pub annotation : Keyed Bytes Bytes → Bytes → Bytes
annotation annotations key = elim (lookup key annotations) [ some value ↦ value | none ↦ [] ]

-- `if a == "" { a = b }`
abbrev pub or_else : Bytes → Bytes → Bytes
or_else a b = if bytes_eq a [] then b else a

abbrev pub task_container_name : Keyed Bytes Bytes → Bytes
task_container_name annotations =
    or_else (annotation annotations (codes "io.kubernetes.cri.container-name")) (
      if bytes_eq (annotation annotations (codes "io.kubernetes.cri.container-type"))
        (codes "sandbox")
      then codes "sandbox"
      else annotation annotations (codes "io.kubernetes.container.name"))

-- The group of a pod, made where it is not in the map, with the container added.
abbrev pub grouped : (name namespace uid : Bytes) → ContainerStatus → Option PodGroup → PodGroup
grouped name namespace uid c none = record {
  name = name;
  namespace = namespace;
  uid = uid;
  containers = c ∷ [];
}
grouped name namespace uid c (some group) = record group { containers = group.containers ++ c ∷ [] }

abbrev pub add_container :
    (name namespace uid : Bytes) → ContainerStatus → Keyed Bytes PodGroup → Keyed Bytes PodGroup
add_container name namespace uid c groups =
    let key = namespace ++ slash ∷ name in
    if not (bytes_eq name []) && not (bytes_eq namespace [])
    then insert key (grouped name namespace uid c (lookup key groups)) groups
    else groups

abbrev pub add_annotated :
    (id : Bytes) → Keyed Bytes Bytes → Keyed Bytes PodGroup → Keyed Bytes PodGroup
add_annotated id annotations groups =
    add_container
      (or_else (annotation annotations (codes "io.kubernetes.cri.sandbox-name"))
        (annotation annotations (codes "io.kubernetes.pod.name")))
      (or_else (annotation annotations (codes "io.kubernetes.cri.sandbox-namespace"))
        (annotation annotations (codes "io.kubernetes.pod.namespace")))
      (or_else (annotation annotations (codes "io.kubernetes.cri.sandbox-uid"))
        (annotation annotations (codes "io.kubernetes.pod.uid")))
      (record {
        name = task_container_name annotations;
        container_id = codes "containerd://" ++ id;
      })
      groups

unfoldable pub add_task : TaskEntry → Keyed Bytes PodGroup → Keyed Bytes PodGroup
add_task entry groups = elim entry.annotations [
  | none ↦ groups
  | some annotations ↦ if entry.is_dir then add_annotated entry.name annotations groups else groups
]

unfoldable pub add_tasks : List TaskEntry → Keyed Bytes PodGroup → Keyed Bytes PodGroup
add_tasks [] groups = groups
add_tasks (entry ∷ entries) groups = add_tasks entries (add_task entry groups)

abbrev pub pod_of_group : PodGroup → Pod
pod_of_group group = record {
  name = group.name;
  namespace = group.namespace;
  uid = group.uid;
  container_statuses = group.containers;
  init_container_statuses = [];
  ephemeral_container_statuses = [];
}

-- `range_groups` gives the groups in the order in which Go ranges over the map.
unfoldable pub fetch_kubelet_pods_from_task_config :
    (range_groups : Keyed Bytes PodGroup → List PodGroup)
    → Option (List TaskEntry)
    → Option (List Pod)
fetch_kubelet_pods_from_task_config range_groups none = none
fetch_kubelet_pods_from_task_config range_groups (some entries) =
    some (map pod_of_group (range_groups (add_tasks entries [])))

-- The first source that answers: the tasks, if they name a pod, then the kubelet by HTTP and by HTTPS.
abbrev pub first_pods : (tasks http https : Option (List Pod)) → Option (List Pod)
first_pods (some (p ∷ pods)) http https = some (p ∷ pods)
first_pods (some []) (some pods) https = some pods
first_pods none (some pods) https = some pods
first_pods (some []) none https = https
first_pods none none https = https
