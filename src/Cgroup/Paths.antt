-- ===== src/Cgroup/Paths.antt =====
-- pkg/cgroup/resolver.go: the label and the container identifier that a cgroup's path gives, and the
-- identifier that the kubelet gives.
pub mod Identifiers
use self_healing_kubernetes.Base.{
  ℕ, Bool, true, false, ◌&&◌, ◌||◌, Option, none, some, List, [], ◌∷◌, ◌++◌, length, take, leb,
  nat_eq, if◌then◌else◌, any,
}
use self_healing_kubernetes.Base.Bytes.{Bytes, codes}
use self_healing_kubernetes.Base.Strings.{
  bytes_eq, has_prefix, has_suffix, trim_prefix, trim_suffix, split_loop, last_of, last_part,
  after_first,
}

abbrev pub slash : ℕ
slash = 47

abbrev pub scope_suffix : Bytes
scope_suffix = codes ".scope"

-- `strings.HasPrefix(last, prefix) && strings.HasSuffix(last, ".scope")`
unfoldable pub is_scope : (prefix : Bytes) → Bytes → Bool
is_scope prefix last = has_prefix prefix last && has_suffix scope_suffix last

unfoldable pub scope_id : (prefix : Bytes) → Bytes → Bytes
scope_id prefix last = trim_suffix scope_suffix (trim_prefix prefix last)

-- `id[:12]` of a long identifier.
abbrev pub short_id : Bytes → Bytes
short_id id = if leb 12 (length id) then take 12 id else id

-- `parts[len(parts)-2]`, where there are two parts.
abbrev pub parent_part : Bytes → List Bytes → Option Bytes
parent_part part [] = none
parent_part part (next ∷ []) = some part
parent_part part (next ∷ more ∷ parts) = parent_part next (more ∷ parts)

-- The label of a path that names no scope.
abbrev pub plain_label : (parent : Option Bytes) (last : Bytes) (is_k8s : Bool) → Bytes
plain_label none last is_k8s =
    if is_k8s && nat_eq (length last) 64 then codes "k8s:" ++ take 12 last else last
plain_label (some parent) last is_k8s =
    if bytes_eq parent (codes "docker")
    then (if is_k8s then codes "k8s:" else codes "docker:") ++ short_id last
    else if is_k8s && nat_eq (length last) 64
    then codes "k8s:" ++ take 12 last
    else parent ++ slash ∷ last

-- `docker_name` is the daemon's answer, empty where it gives none.
abbrev pub docker_label : (docker_name : Bytes → Bytes) → Bytes → Bytes
docker_label docker_name id =
    if bytes_eq (docker_name id) []
    then codes "docker:" ++ short_id id
    else codes "docker:" ++ docker_name id

abbrev pub label_of_parts : (docker_name : Bytes → Bytes) → Bytes → List Bytes → Bytes
label_of_parts docker_name part parts =
    let last = last_of part parts in
    if is_scope (codes "docker-") last
    then docker_label docker_name (scope_id (codes "docker-") last)
    else if is_scope (codes "cri-containerd-") last
    then codes "k8s:" ++ short_id (scope_id (codes "cri-containerd-") last)
    else if is_scope (codes "crio-") last
    then codes "k8s:" ++ short_id (scope_id (codes "crio-") last)
    else plain_label (parent_part part parts) last
        (any (has_prefix (codes "kubepods")) (part ∷ parts))

unfoldable pub label_from_path : (docker_name : Bytes → Bytes) → Bytes → Bytes
label_from_path docker_name rel =
    let parts = split_loop slash rel in
    if bytes_eq rel (codes ".") || bytes_eq rel []
    then codes "host"
    else label_of_parts docker_name parts.0 parts.1

-- The identifier that the name of a directory gives.
abbrev pub id_of_name : Bytes → Bytes
id_of_name last =
    if is_scope (codes "cri-containerd-") last
    then scope_id (codes "cri-containerd-") last
    else if is_scope (codes "crio-") last
    then scope_id (codes "crio-") last
    else if is_scope (codes "docker-") last
    then scope_id (codes "docker-") last
    else if nat_eq (length last) 64
    then last
    else []

unfoldable pub extract_container_id : Bytes → Bytes
extract_container_id rel = id_of_name (last_part slash rel)

unfoldable pub clean_container_id : Bytes → Bytes
clean_container_id id = elim (after_first (codes "://") id) [ some rest ↦ rest | none ↦ id ]
