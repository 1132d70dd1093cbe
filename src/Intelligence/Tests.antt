-- ===== src/Intelligence/Tests.antt =====
-- Three pods on a node, two of which share a volume.
use self_healing_kubernetes.Base.{
  ℕ, ◌≡◌, refl, String, true, some, List, [], ◌∷◌, arith, All, Keyed, lookup, insert, erase,
  Distinct, ◌==◌, string_Eq, minute,
}
use self_healing_kubernetes.Analyzer.Samples.{hundredths}
use self_healing_kubernetes.Intelligence.Incident.{AnomalyEntry, NodeIncident, IncidentEvent}
use self_healing_kubernetes.Intelligence.Graph.{
  DependencyGraph, Pod, new_dependency_graph, add_edge, register_pod, unregister_pod, add_node,
  append_unique, pods_at, uses_pvc, node_for_pod, peers_on_node,
}
use self_healing_kubernetes.Intelligence.Graph.Volumes.{is_listed}
use self_healing_kubernetes.Intelligence.Graph.Located.{
  GraphCall, registers, unregisters, call, call_all, call_all-Located,
}
use self_healing_kubernetes.Intelligence.Aggregator.{Aggregator, default_aggregator_config, flush}
use self_healing_kubernetes.Intelligence.Aggregator.Flushing.{IsIncident, kept_of, flush-IsIncident}
use self_healing_kubernetes.Intelligence.Reasoner.{classify, count_at}
use self_healing_kubernetes.Intelligence.Reasoner.Majority.{
  cause_by_reports, reports, classify-cause,
}
use self_healing_kubernetes.Intelligence.Scorer.{NodeStats}

abbrev pod : (name node : String) → Pod
pod name node = record {
  name = name;
  namespace = "shop";
  node_name = node;
  labels = [];
  claims = [];
}

abbrev calls : List GraphCall
calls = registers (pod "web" "n1") ∷ registers (pod "api" "n1") ∷ unregisters "shop" "web" ∷ []

api_on_n1 : node_for_pod (call_all calls new_dependency_graph) "Pod/shop/api" ≡ some "Node/n1"
unfolding call_all call register_pod unregister_pod add_edge add_node append_unique pods_at insert
    erase lookup node_for_pod
api_on_n1 = refl

call_all-Located_example :
    is_listed "Pod/shop/api" (peers_on_node (call_all calls new_dependency_graph) "Node/n1") ≡ true
call_all-Located_example = call_all-Located calls "Pod/shop/api" "Node/n1" api_on_n1

abbrev graph : DependencyGraph
graph =
    add_edge "Pod/shop/web" "PersistentVolume/v1" uses_pvc
      (add_edge "Pod/shop/api" "PersistentVolume/v1" uses_pvc new_dependency_graph)

abbrev entry : (name : String) → ℕ → AnomalyEntry hundredths
entry name at = record {
  pod_name = name;
  namespace = "shop";
  deployment = name;
  node_name = "n1";
  signals = "oom_kill" ∷ [];
  confidence = 80;
  received_at = at;
}

abbrev entries : List (AnomalyEntry hundredths)
entries = entry "web" 10 ∷ entry "web" 20 ∷ entry "api" 30 ∷ []

abbrev aggregator : Aggregator hundredths
aggregator = record { cfg = default_aggregator_config; windows = ("Node/n1", entries) ∷ [] }

flush-IsIncident_example :
    All
      (IsIncident hundredths aggregator.cfg minute aggregator.windows)
      (flush hundredths minute (λ n. minute) aggregator).1
    × (lookup "Node/n1" (flush hundredths minute (λ n. minute) aggregator).0.windows
        ≡ kept_of hundredths aggregator.cfg minute (lookup "Node/n1" aggregator.windows))
flush-IsIncident_example =
    flush-IsIncident hundredths minute (λ n. minute) aggregator "Node/n1"
      (unfold Distinct lookup in (refl, tt))

abbrev incident : NodeIncident hundredths
incident = record { node_name = "n1"; anomalies = entries; window_end = minute }

classify-cause_example :
    (ev : IncidentEvent hundredths) × (classify hundredths (λ a b. a == b) graph minute incident
      ≡ some ev)
    × (ev.root_cause ≡ cause_by_reports hundredths entries)
    × (count_at "oom_kill" ev.signal_summary ≡ reports hundredths "oom_kill" entries)
classify-cause_example =
    classify-cause hundredths (λ a b. a == b) graph minute incident "oom_kill" (omega arith) refl

abbrev stats : Keyed String NodeStats
stats =
    (
      "Node/n1",
      record {
        total_anomalies = 4;
        unresolved_count = 4;
        escalated_count = 4;
        anomaly_timestamps = [];
        last_updated = 0;
      },
    )
    ∷ (
      "Node/n2",
      record {
        total_anomalies = 4;
        unresolved_count = 0;
        escalated_count = 0;
        anomaly_timestamps = [];
        last_updated = 0;
      },
    )
    ∷ []
