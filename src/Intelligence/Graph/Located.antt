-- ===== src/Intelligence/Graph/Located.antt =====
-- The two indices of the graph agree: a pod is among the pods of the node that it is placed on.
use self_healing_kubernetes.Base.{
  String, ◌≡◌, refl, ap, true, not, ◌&&◌, ◌||◌, Option, none, some, List, [], ◌∷◌, ◌++◌, arith,
  keep, inl, inr, Bool-cases, Option-cases, ◌==◌, string_Eq, if◌then◌else◌, Keyed, lookup, insert,
  erase, lookup-insert, lookup-erase, lookup-nil-ne,
}
use self_healing_kubernetes.Intelligence.Graph.{
  ResourceNode, EdgeRelation, DependencyGraph, Pod, new_dependency_graph, append_unique, pods_at,
  add_node, add_edge, node_for_pod, peers_on_node, add_claims, add_pod, register_pod,
  unregister_pod, add_nodes, add_pods, sync_from_cluster, resource_id, kind_pod, uses_pvc, runs_on,
  kind_node, kind_volume, pod_node, place_pod, add_volume, volume_node, cluster_node,
}
use self_healing_kubernetes.Intelligence.Graph.Volumes.{is_listed}

abbrev pub Located : DependencyGraph → Type 0
Located g =
    (pod node : String)
    → node_for_pod g pod ≡ some node
    → is_listed pod (peers_on_node g node) ≡ true

is_listed-append :
    (p s : String) (slice : List String)
    → is_listed p (slice ++ s ∷ []) ≡ is_listed p slice || s == p
is_listed-append p s [] = ground arith
is_listed-append p s (x ∷ slice) = ground (arith, is_listed-append p s slice)

is_listed-append_unique :
    (p s : String) (slice : List String)
    → is_listed p (append_unique slice s) ≡ is_listed p slice || s == p
unfolding append_unique
is_listed-append_unique p s slice = ground (
  arith,
  is_listed-append p s slice,
  string_Eq.equal_iff s p,
  ap (λ x. is_listed x slice) {x = s} {y = p},
)

is_listed-keep :
    (p gone : String) (slice : List String)
    → is_listed p (keep (λ x. not (x == gone)) slice) ≡ is_listed p slice && not (p == gone)
is_listed-keep p gone [] = refl
is_listed-keep p gone (x ∷ slice) = ground (
  arith,
  is_listed-keep p gone slice,
  string_Eq.equal_iff x p,
  string_Eq.equal_iff x gone,
  string_Eq.equal_iff p gone,
)

pods_at-insert :
    (node at : String) (pods : List String) (m : Keyed String (List String))
    → pods_at node (insert at pods m) ≡ (if at == node then pods else pods_at node m)
unfolding pods_at
pods_at-insert node at pods m = ground (arith, lookup-insert at node pods m)

Located-add_edge :
    (from to : String) (rel : EdgeRelation) (g : DependencyGraph)
    → Located g
    → Located (add_edge from to rel g)
unfolding add_edge node_for_pod peers_on_node
Located-add_edge from to rel g h pod node e = ground (
  arith,
  h pod node,
  e,
  lookup-insert from pod to g.pod_to_node,
  pods_at-insert node to (append_unique (pods_at to g.node_to_pods) from) g.node_to_pods,
  is_listed-append_unique pod from (pods_at to g.node_to_pods),
  string_Eq.equal_iff from pod,
  string_Eq.equal_iff to node,
)

-- A pod is removed from the index and from the list of its node.
kept_listed :
    (gone home : String) (g : DependencyGraph) (pod node : String)
    → Located g
    → lookup pod (erase gone g.pod_to_node) ≡ some node
    → is_listed pod (
        pods_at node (
          if home == ""
          then g.node_to_pods
          else insert home
              (keep (λ p. not (p == gone)) (pods_at home g.node_to_pods))
              g.node_to_pods))
      ≡ true
unfolding node_for_pod peers_on_node
kept_listed gone home g pod node h e = ground (
  arith,
  h pod node,
  e,
  lookup-erase gone pod g.pod_to_node,
  pods_at-insert node home (keep (λ p. not (p == gone)) (pods_at home g.node_to_pods))
      g.node_to_pods,
  is_listed-keep pod gone (pods_at home g.node_to_pods),
  string_Eq.equal_iff home node,
  string_Eq.equal_iff gone pod,
  string_Eq.equal_iff pod gone,
)

Located-unregister_pod :
    (namespace name : String) (g : DependencyGraph)
    → Located g
    → Located (unregister_pod namespace name g)
unfolding unregister_pod node_for_pod peers_on_node
Located-unregister_pod namespace name g h pod node e =
    let gone = resource_id kind_pod namespace name in
    let home : String = elim (lookup gone g.pod_to_node) [ none ↦ "" | some node ↦ node ] in
    kept_listed gone home g pod node h e

Located-add_node : (n : ResourceNode) (g : DependencyGraph) → Located g → Located (add_node n g)
unfolding add_node node_for_pod peers_on_node
Located-add_node n g h = h

Located-place_pod : (p : Pod) (g : DependencyGraph) → Located g → Located (place_pod p g)
Located-place_pod p g h =
    Located-add_edge (resource_id kind_pod p.namespace p.name)
      (resource_id kind_node "" p.node_name) runs_on (add_node (pod_node p) g)
      (Located-add_node (pod_node p) g h)

Located-register_pod : (p : Pod) (g : DependencyGraph) → Located g → Located (register_pod p g)
unfolding register_pod
Located-register_pod p g h = elim (Bool-cases (p.node_name == "")) [
  | inl unscheduled ↦ rw unscheduled h
  | inr scheduled ↦ rw scheduled (Located-place_pod p g h)
]

Located-volume :
    (pod name : String) (g : DependencyGraph) → Located g → Located (add_volume pod name g)
unfolding add_volume
Located-volume pod name g h = elim (Bool-cases (name == "")) [
  | inl unbound ↦ rw unbound h
  | inr bound ↦ rw bound (
      Located-add_edge pod (resource_id kind_volume "" name) uses_pvc
        (add_node (volume_node name) g) (Located-add_node (volume_node name) g h))
]

Located-add_claims :
    (get_claim : (namespace claim : String) → Option String) (pod namespace : String)
    (claims : List (Option String)) (g : DependencyGraph)
    → Located g
    → Located (add_claims get_claim pod namespace claims g)
unfolding add_claims
Located-add_claims get_claim pod namespace [] g h = h
Located-add_claims get_claim pod namespace (none ∷ claims) g h =
    Located-add_claims get_claim pod namespace claims g h
Located-add_claims get_claim pod namespace (some claim ∷ claims) g h =
    elim (Option-cases (get_claim namespace claim)) [
      | inl failed ↦ rw failed (Located-add_claims get_claim pod namespace claims g h)
      | inr (name, got) ↦ rw got (
          Located-add_claims get_claim pod namespace claims (add_volume pod name g)
            (Located-volume pod name g h))
    ]

Located-add_pods :
    (get_claim : (namespace claim : String) → Option String) (pods : List Pod) (g : DependencyGraph)
    → Located g
    → Located (add_pods get_claim pods g)
unfolding add_pods add_pod
Located-add_pods get_claim [] g h = h
Located-add_pods get_claim (p ∷ pods) g h = elim (Bool-cases (p.node_name == "")) [
  | inl unscheduled ↦ rw unscheduled (Located-add_pods get_claim pods g h)
  | inr scheduled ↦ rw scheduled (
      Located-add_pods get_claim pods (add_pod get_claim p g) (
        Located-add_claims get_claim (resource_id kind_pod p.namespace p.name) p.namespace p.claims
          (place_pod p g) (Located-place_pod p g h)))
]

Located-add_nodes :
    (nodes : List (String × Keyed String String)) (g : DependencyGraph)
    → Located g
    → Located (add_nodes nodes g)
unfolding add_nodes
Located-add_nodes [] g h = h
Located-add_nodes ((name, labels) ∷ rest) g h =
    Located-add_nodes rest (add_node (cluster_node name labels) g)
      (Located-add_node (cluster_node name labels) g h)

-- A change of the graph; a sync carries what the client answers.
pub data GraphCall : Type 0 where
  syncs :
      Option (List (String × Keyed String String))
      → Option (List Pod)
      → ((namespace claim : String) → Option String)
      → GraphCall
  registers : Pod → GraphCall
  unregisters : (namespace name : String) → GraphCall

unfoldable pub call : GraphCall → DependencyGraph → DependencyGraph
call (syncs nodes pods get_claim) g = (sync_from_cluster nodes pods get_claim g).1
call (registers p) g = register_pod p g
call (unregisters namespace name) g = unregister_pod namespace name g

unfoldable pub call_all : List GraphCall → DependencyGraph → DependencyGraph
call_all [] g = g
call_all (c ∷ calls) g = call_all calls (call c g)

Located-call : (c : GraphCall) (g : DependencyGraph) → Located g → Located (call c g)
unfolding call sync_from_cluster
Located-call (syncs none pods get_claim) g h = h
Located-call (syncs (some nodes) none get_claim) g h = Located-add_nodes nodes g h
Located-call (syncs (some nodes) (some pods) get_claim) g h =
    Located-add_pods get_claim pods (add_nodes nodes g) (Located-add_nodes nodes g h)
Located-call (registers p) g h = Located-register_pod p g h
Located-call (unregisters namespace name) g h = Located-unregister_pod namespace name g h

Located-call_all :
    (calls : List GraphCall) (g : DependencyGraph) → Located g → Located (call_all calls g)
unfolding call_all
Located-call_all [] g h = h
Located-call_all (c ∷ calls) g h = Located-call_all calls (call c g) (Located-call c g h)

-- After any sequence of syncs, registrations and removals of pods on a new graph, a pod that the
-- graph resolves to a node is among the peers that it lists on that node.
pub call_all-Located :
    (calls : List GraphCall) (pod node : String)
    → node_for_pod (call_all calls new_dependency_graph) pod ≡ some node
    → is_listed pod (peers_on_node (call_all calls new_dependency_graph) node) ≡ true
call_all-Located calls =
    Located-call_all calls new_dependency_graph
      (unfold node_for_pod in λ pod node h. absurd (lookup-nil-ne pod node h))
