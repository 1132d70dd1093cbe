-- ===== src/Intelligence/Graph.antt =====
-- internal/intelligence/graph.go: the dependency graph of nodes, pods and volumes. The lock and the
-- logs are left out. A map of sets is listed in the order of its entries, where Go fixes none.
pub mod Volumes
pub mod Located
use self_healing_kubernetes.Base.{
  ℕ, String, ◌<>◌, Bool, true, false, not, ◌&&◌, ◌||◌, Option, none, some, List, [], ◌∷◌, ◌++◌, map,
  any, keep, ◌==◌, string_Eq, if◌then◌else◌, Keyed, lookup, insert, erase, delete_if,
}

abbrev pub kind_pod : String
kind_pod = "Pod"

abbrev pub kind_node : String
kind_node = "Node"

abbrev pub kind_volume : String
kind_volume = "PersistentVolume"

pub data EdgeRelation : Type 0 where
  runs_on uses_pvc uses_net : EdgeRelation

abbrev pub is_runs_on : EdgeRelation → Bool
is_runs_on runs_on = true
is_runs_on uses_pvc = false
is_runs_on uses_net = false

abbrev pub is_uses_pvc : EdgeRelation → Bool
is_uses_pvc runs_on = false
is_uses_pvc uses_pvc = true
is_uses_pvc uses_net = false

pub record ResourceNode : Type 0 where
  pub id : String
  pub kind : String
  pub name : String
  pub namespace : String
  pub labels : Keyed String String

abbrev pub resource_id : (kind namespace name : String) → String
resource_id kind namespace name =
    if namespace == "" then kind <> "/" <> name else kind <> "/" <> namespace <> "/" <> name

pub record Edge : Type 0 where
  pub from : String
  pub to : String
  pub relation : EdgeRelation

pub record DependencyGraph : Type 0 where
  pub nodes : Keyed String ResourceNode
  pub edges : List Edge
  pub pod_to_node : Keyed String String
  pub node_to_pods : Keyed String (List String)

abbrev pub new_dependency_graph : DependencyGraph
new_dependency_graph = record { nodes = []; edges = []; pod_to_node = []; node_to_pods = [] }

unfoldable pub append_unique : List String → String → List String
append_unique slice s = if any (λ v. v == s) slice then slice else slice ++ s ∷ []

-- `g.nodeToPods[nodeID]`, nil for a missing key.
unfoldable pub pods_at : String → Keyed String (List String) → List String
pods_at node m = elim (lookup node m) [ none ↦ [] | some pods ↦ pods ]

unfoldable pub add_node : ResourceNode → DependencyGraph → DependencyGraph
add_node n g = record g { nodes = insert n.id n g.nodes }

unfoldable pub add_edge : (from to : String) → EdgeRelation → DependencyGraph → DependencyGraph
add_edge from to rel g = record g {
  edges = g.edges ++ record { from = from; to = to; relation = rel } ∷ [];
  pod_to_node = if is_runs_on rel then insert from to g.pod_to_node else g.pod_to_node;
  node_to_pods =
      if is_runs_on rel
      then insert to (append_unique (pods_at to g.node_to_pods) from) g.node_to_pods
      else g.node_to_pods;
}

unfoldable pub node_for_pod : DependencyGraph → String → Option String
node_for_pod g pod = lookup pod g.pod_to_node

unfoldable pub peers_on_node : DependencyGraph → String → List String
peers_on_node g node = pods_at node g.node_to_pods

unfoldable pub node_of : DependencyGraph → String → Option ResourceNode
node_of g id = lookup id g.nodes

unfoldable pub volumes_for_pod : DependencyGraph → String → List String
volumes_for_pod g pod =
    map (λ e. e.to) (keep (λ e. e.from == pod && is_uses_pvc e.relation) g.edges)

-- The loop `for _, v := range … { sets[i][v] = struct{}{} }`.
unfoldable pub set_of : List String → Keyed {0, 0} String Unit
set_of [] = []
set_of (v ∷ vs) = insert v tt (set_of vs)

abbrev pub in_set : Keyed {0, 0} String Unit → String → Bool
in_set s v = elim (lookup v s) [ none ↦ false | some _ ↦ true ]

-- `for _, s := range sets[1:] { … delete(shared, v) … }`
unfoldable pub intersect :
    Keyed {0, 0} String Unit → List (Keyed {0, 0} String Unit) → Keyed {0, 0} String Unit
intersect shared [] = shared
intersect shared (s ∷ sets) = intersect (delete_if (λ v. not (in_set s v)) shared) sets

unfoldable pub shared_volumes : DependencyGraph → List String → List String
shared_volumes g [] = []
shared_volumes g (pod ∷ pods) =
    map (λ kv. kv.0)
      (intersect (set_of (volumes_for_pod g pod)) (map (λ p. set_of (volumes_for_pod g p)) pods))

-- What the code reads of a pod of the cluster; a volume without a claim is `none`.
pub record Pod : Type 0 where
  pub name : String
  pub namespace : String
  pub node_name : String
  pub labels : Keyed String String
  pub claims : List (Option String)

abbrev pub volume_node : String → ResourceNode
volume_node name = record {
  id = resource_id kind_volume "" name;
  kind = kind_volume;
  name = name;
  namespace = "";
  labels = [];
}

-- The node and the edge of a claim's volume, unless it has none.
unfoldable pub add_volume : (pod name : String) → DependencyGraph → DependencyGraph
add_volume pod name g =
    if name == ""
    then g
    else add_edge pod (resource_id kind_volume "" name) uses_pvc (add_node (volume_node name) g)

-- `get_claim` is `PersistentVolumeClaims(namespace).Get(claim)`: the name of its volume, or an error.
unfoldable pub add_claims :
    (get_claim : (namespace claim : String) → Option String) (pod namespace : String)
    → List (Option String)
    → DependencyGraph
    → DependencyGraph
add_claims get_claim pod namespace [] g = g
add_claims get_claim pod namespace (none ∷ claims) g = add_claims get_claim pod namespace claims g
add_claims get_claim pod namespace (some claim ∷ claims) g =
    add_claims get_claim pod namespace claims
      (elim (get_claim namespace claim) [ none ↦ g | some name ↦ add_volume pod name g ])

abbrev pub pod_node : Pod → ResourceNode
pod_node p = record {
  id = resource_id kind_pod p.namespace p.name;
  kind = kind_pod;
  name = p.name;
  namespace = p.namespace;
  labels = p.labels;
}

-- The node of the pod and its edge, which `addPod` and `RegisterPod` begin with.
abbrev pub place_pod : Pod → DependencyGraph → DependencyGraph
place_pod p g =
    add_edge (resource_id kind_pod p.namespace p.name) (resource_id kind_node "" p.node_name)
      runs_on (add_node (pod_node p) g)

unfoldable pub add_pod :
    (get_claim : (namespace claim : String) → Option String)
    → Pod
    → DependencyGraph
    → DependencyGraph
add_pod get_claim p g =
    add_claims get_claim (resource_id kind_pod p.namespace p.name) p.namespace p.claims
      (place_pod p g)

unfoldable pub register_pod : Pod → DependencyGraph → DependencyGraph
register_pod p g = if p.node_name == "" then g else place_pod p g

unfoldable pub unregister_pod : (namespace name : String) → DependencyGraph → DependencyGraph
unregister_pod namespace name g =
    let pod = resource_id kind_pod namespace name in
    let node : String = elim (lookup pod g.pod_to_node) [ none ↦ "" | some node ↦ node ] in
    record g {
      nodes = erase pod g.nodes;
      pod_to_node = erase pod g.pod_to_node;
      node_to_pods =
          if node == ""
          then g.node_to_pods
          else insert node (keep (λ p. not (p == pod)) (pods_at node g.node_to_pods))
              g.node_to_pods;
      edges = keep (λ e. not (e.from == pod) && not (e.to == pod)) g.edges;
    }

abbrev pub cluster_node : String → Keyed String String → ResourceNode
cluster_node name labels = record {
  id = resource_id kind_node "" name;
  kind = kind_node;
  name = name;
  namespace = "";
  labels = labels;
}

-- The two loops of `SyncFromCluster`.
unfoldable pub add_nodes : List (String × Keyed String String) → DependencyGraph → DependencyGraph
add_nodes [] g = g
add_nodes ((name, labels) ∷ rest) g = add_nodes rest (add_node (cluster_node name labels) g)

unfoldable pub add_pods :
    (get_claim : (namespace claim : String) → Option String)
    → List Pod
    → DependencyGraph
    → DependencyGraph
add_pods get_claim [] g = g
add_pods get_claim (p ∷ pods) g =
    add_pods get_claim pods (if p.node_name == "" then g else add_pod get_claim p g)

-- `none` for a list is the error of the client; the flag tells whether the sync succeeded.
unfoldable pub sync_from_cluster :
    (list_nodes : Option (List (String × Keyed String String))) (list_pods : Option (List Pod))
    (get_claim : (namespace claim : String) → Option String)
    → DependencyGraph
    → Bool × DependencyGraph
sync_from_cluster list_nodes list_pods get_claim g = elim list_nodes [
  | none ↦ (false, g)
  | some nodes ↦ elim list_pods [
    | none ↦ (false, add_nodes nodes g)
    | some pods ↦ (true, add_pods get_claim pods (add_nodes nodes g))
  ]
]
