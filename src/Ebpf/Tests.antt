-- ===== src/Ebpf/Tests.antt =====
-- A pod of a deployment whose container is in the index and in the cache of a cgroup.
use self_healing_kubernetes.Base.{
  ℕ, ◌≡◌, refl, true, false, ◌&&◌, none, some, [], ◌∷◌, lookup, insert, Bool, ◌||◌, if◌then◌else◌,
  nat_Eq,
}
use self_healing_kubernetes.Base.Bytes.{Bytes, codes}
use self_healing_kubernetes.Base.Strings.{bytes_eq, bytes_Eq}
use self_healing_kubernetes.Cgroup.Scan.{directory, other}
use self_healing_kubernetes.Ebpf.Mapper.{
  Pod, Mapper, Walks, pod_object, new_mapper, on_pod_add, on_pod_delete, index_all, resolve,
  resolve_slow, resolve_cgroup_path, walk_cgroup_fs, resolve_container_id, normalise_container_id,
  owner_name, names_pod, info_of,
}
use self_healing_kubernetes.Ebpf.Mapper.Adding.{resolve-on_pod_add}
use self_healing_kubernetes.Ebpf.Mapper.Deleting.{IndexedByStatus, resolve-on_pod_delete}

abbrev id64 : Bytes
id64 = codes "0123456789abcdef0123456789abcdef0123456789abcdef0123456789abcdef"

abbrev pod : Pod
pod = record {
  name = codes "web-0";
  namespace = codes "shop";
  node_name = codes "node-1";
  owner_references = record { kind = codes "ReplicaSet"; name = codes "web-5d9f" } ∷ [];
  container_statuses =
      record {
        name = codes "nginx";
        container_id =
            codes "containerd://0123456789abcdef0123456789abcdef0123456789abcdef0123456789abcdef";
      }
      ∷ [];
}

abbrev walks : Walks
walks = record {
  unified =
      other
      ∷ directory 7
          (codes "kubepods/0123456789abcdef0123456789abcdef0123456789abcdef0123456789abcdef")
      ∷ [];
  memory = [];
}

abbrev indexed : Mapper
indexed = record {
  store = info_of 0 pod (record { name = codes "nginx"; container_id = [] }) ∷ [];
  pod_cache = (7, 0) ∷ [];
  container_index = (id64, 0) ∷ [];
  cgroup_path_cache = [];
}

abbrev added : Mapper
added = record indexed { pod_cache = [] }

owner_of_pod : owner_name pod.owner_references ≡ codes "web"
unfolding owner_name
owner_of_pod = refl

normalised : normalise_container_id (codes "cri-o://abc") ≡ codes "abc"
unfolding normalise_container_id
normalised = refl

indexed_by_add : on_pod_add 0 (pod_object pod) new_mapper ≡ some added
unfolding on_pod_add index_all new_mapper owner_name normalise_container_id insert
indexed_by_add = refl

resolved : names_pod pod (resolve 5 walks 7 added).1 ≡ true
unfolding resolve resolve_slow resolve_cgroup_path walk_cgroup_fs resolve_container_id owner_name
    lookup
resolved = refl

one_id :
    (b : Bool) (ref : ℕ) → (if b then some 0 else none) ≡ some ref → (b && true || false) ≡ true
one_id true ref h = refl
one_id false ref h = cc

indexed-IndexedByStatus : IndexedByStatus pod indexed
unfolding lookup normalise_container_id
indexed-IndexedByStatus id ref found is_pod = one_id (bytes_eq id64 id) ref found

resolve-on_pod_delete_example :
    names_pod pod (resolve 5 walks 7 (on_pod_delete (pod_object pod) indexed)).1 ≡ false
resolve-on_pod_delete_example = resolve-on_pod_delete pod indexed 5 walks 7 indexed-IndexedByStatus

resolve-on_pod_add_example : names_pod pod (resolve 5 walks 7 added).1 ≡ true
unfolding on_pod_add index_all new_mapper owner_name normalise_container_id insert lookup
    resolve_cgroup_path walk_cgroup_fs resolve_container_id
resolve-on_pod_add_example =
    resolve-on_pod_add pod 0 5 walks 7 new_mapper added id64
      (codes "kubepods/0123456789abcdef0123456789abcdef0123456789abcdef0123456789abcdef") refl refl
      refl refl refl
