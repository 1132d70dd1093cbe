-- ===== src/Cgroup/Paths/Identifiers.antt =====
-- pkg/cgroup/resolver.go: the identifier of a container is read back from the name of its scope, as
-- the container runtimes write it, and from the kubelet's status.
use mathlib.Core.List.{append_assoc}
use self_healing_kubernetes.Base.{
  sym, ℕ, ◌≡◌, refl, ap, ◌∙◌, true, false, [], ◌∷◌, ◌++◌, arith, nat_eq, any, false, ◌≢◌,
}
use self_healing_kubernetes.Base.Bytes.{Bytes, codes}
use self_healing_kubernetes.Base.Strings.{
  Lacks, Lacks-append, last_part-append, trim_prefix-append, trim_suffix-append, has_prefix-append,
  has_suffix-append, has_suffix, trim_suffix,
}
use self_healing_kubernetes.Cgroup.Paths.{
  slash, scope_suffix, is_scope, scope_id, id_of_name, extract_container_id, clean_container_id,
}

-- The container runtimes whose scopes the code knows, and the prefix of their names.
pub data Runtime : Type 0 where
  containerd crio docker : Runtime

abbrev pub prefix_of : Runtime → Bytes
prefix_of containerd = codes "cri-containerd-"
prefix_of crio = codes "crio-"
prefix_of docker = codes "docker-"

-- The name of a container's scope.
abbrev pub scope_name : Runtime → (id : Bytes) → Bytes
scope_name runtime id = prefix_of runtime ++ (id ++ scope_suffix)

-- The path of a container's cgroup.
abbrev pub scope_path : Runtime → (dir id : Bytes) → Bytes
scope_path runtime dir id = dir ++ slash ∷ scope_name runtime id

-- The container's identifier in the kubelet's status, as `containerd://<id>`.
abbrev pub status_id : Runtime → (id : Bytes) → Bytes
status_id containerd id = codes "containerd://" ++ id
status_id crio id = codes "cri-o://" ++ id
status_id docker id = codes "docker://" ++ id

not_slash : (c : ℕ) → nat_eq c slash ≡ false → c ≢ slash
not_slash c h = λ e. ground arith

Lacks-all : (s : Bytes) → any (λ c. nat_eq c slash) s ≡ false → Lacks slash s
Lacks-all [] h = tt
Lacks-all (c ∷ s) h = (ground arith, Lacks-all s (ground arith))

Lacks-prefix_of : (runtime : Runtime) → Lacks slash (prefix_of runtime)
Lacks-prefix_of containerd = Lacks-all (prefix_of containerd) refl
Lacks-prefix_of crio = Lacks-all (prefix_of crio) refl
Lacks-prefix_of docker = Lacks-all (prefix_of docker) refl

Lacks-scope_name :
    (runtime : Runtime) (id : Bytes) → Lacks slash id → Lacks slash (scope_name runtime id)
Lacks-scope_name runtime id h =
    Lacks-append slash (prefix_of runtime) (id ++ scope_suffix) (Lacks-prefix_of runtime)
      (Lacks-append slash id scope_suffix h (Lacks-all scope_suffix refl))

is_scope-prefix : (prefix id : Bytes) → is_scope prefix (prefix ++ (id ++ scope_suffix)) ≡ true
unfolding is_scope
is_scope-prefix prefix id = rw (has_prefix-append prefix (id ++ scope_suffix)) (
    ap (has_suffix scope_suffix) (sym (append_assoc prefix id scope_suffix))
    ∙ has_suffix-append (prefix ++ id) scope_suffix)

scope_id-prefix : (prefix id : Bytes) → scope_id prefix (prefix ++ (id ++ scope_suffix)) ≡ id
unfolding scope_id
scope_id-prefix prefix id =
    ap (trim_suffix scope_suffix) (trim_prefix-append prefix (id ++ scope_suffix))
    ∙ trim_suffix-append id scope_suffix

id_of_name-scope_name : (runtime : Runtime) (id : Bytes) → id_of_name (scope_name runtime id) ≡ id
unfolding is_scope
id_of_name-scope_name containerd id =
    rw (is_scope-prefix (prefix_of containerd) id) (scope_id-prefix (prefix_of containerd) id)
id_of_name-scope_name crio id =
    rw (is_scope-prefix (prefix_of crio) id) (scope_id-prefix (prefix_of crio) id)
id_of_name-scope_name docker id =
    rw (is_scope-prefix (prefix_of docker) id) (scope_id-prefix (prefix_of docker) id)

clean_container_id-status_id :
    (runtime : Runtime) (id : Bytes) → clean_container_id (status_id runtime id) ≡ id
unfolding clean_container_id
clean_container_id-status_id containerd id = refl
clean_container_id-status_id crio id = refl
clean_container_id-status_id docker id = refl

-- The identifier in the name of a container's cgroup is the one in the kubelet's status of that
-- container, for each of the three runtimes, if it has no slash: both are the container's.
pub container_id_lem :
    (runtime : Runtime) (dir id : Bytes)
    → Lacks slash id
    → (extract_container_id (scope_path runtime dir id) ≡ id)
      × (clean_container_id (status_id runtime id) ≡ id)
unfolding extract_container_id
container_id_lem runtime dir id h = (
  ap id_of_name (last_part-append slash dir (scope_name runtime id) (Lacks-scope_name runtime id h))
      ∙ id_of_name-scope_name runtime id,
  clean_container_id-status_id runtime id,
)
