-- ===== src/Intelligence/Aggregator.antt =====
-- internal/intelligence/aggregator.go: the anomalies of each node and the incidents they make. The
-- subscription, the ticker, the lock and the logs are left out: a message or a flush is one step, and
-- the handler returns before the next one.
pub mod Flushing
use self_healing_kubernetes.Base.{
  ℕ, ◌+◌, ◌-◌, ◌*◌, String, ◌<>◌, Bool, true, false, not, Option, none, some, List, [], ◌∷◌, ◌++◌,
  length, drop, keep, any, ltb, nat_eq, ◌==◌, string_Eq, if◌then◌else◌, Keyed, lookup, insert, Time,
  Duration, minute, second, within,
}
use self_healing_kubernetes.Analyzer.Window.{Floats}
use self_healing_kubernetes.Analyzer.Engine.{AnomalyEvent}
use self_healing_kubernetes.Intelligence.Incident.{AnomalyEntry, NodeIncident}
use self_healing_kubernetes.Intelligence.Graph.{
  DependencyGraph, node_for_pod, node_of, resource_id, kind_pod,
}

pub record AggregatorConfig : Type 0 where
  pub aggregation_window : Duration
  pub flush_interval : Duration
  pub min_pods_threshold : ℕ

abbrev pub default_aggregator_config : AggregatorConfig
default_aggregator_config = record {
  aggregation_window = 5 * minute;
  flush_interval = 30 * second;
  min_pods_threshold = 2;
}

module _ (floats : Floats) where
  pub record Aggregator : Type 0 where
    pub cfg : AggregatorConfig
    pub windows : Keyed String (List (AnomalyEntry floats))

  unfoldable pub new_aggregator : AggregatorConfig → Aggregator
  new_aggregator cfg = record {
    cfg = record {
      aggregation_window =
          if nat_eq cfg.aggregation_window 0 then 5 * minute else cfg.aggregation_window;
      flush_interval = if nat_eq cfg.flush_interval 0 then 30 * second else cfg.flush_interval;
      min_pods_threshold = if nat_eq cfg.min_pods_threshold 0 then 2 else cfg.min_pods_threshold;
    };
    windows = [];
  }

  unfoldable pub record_entry : String → AnomalyEntry floats → Aggregator → Aggregator
  record_entry node entry a = record a {
    windows =
        insert node
          ((elim (lookup node a.windows) [ none ↦ [] | some entries ↦ entries ]) ++ entry ∷ [])
          a.windows;
  }

  -- `handleAnomalyMessage`; `decode` is `json.Unmarshal`.
  unfoldable pub handle_anomaly_message :
      {D : Type 0} (decode : D → Option (AnomalyEvent floats))
      → DependencyGraph
      → D
      → (now : Time) → Aggregator
      → Aggregator
  handle_anomaly_message decode g payload now a = elim (decode payload) [
    | none ↦ a
    | some ev ↦ elim (node_for_pod g (resource_id kind_pod ev.namespace ev.pod)) [
      | none ↦ a
      | some node ↦
          record_entry node
            (record {
              pod_name = ev.pod;
              namespace = ev.namespace;
              deployment = ev.deployment;
              node_name = elim (node_of g node) [ none ↦ "" | some n ↦ n.name ];
              signals = ev.active_signals;
              confidence = ev.confidence;
              received_at = now;
            })
            a
    ]
  ]

  abbrev pub pod_key : AnomalyEntry floats → String
  pod_key e = e.namespace <> "/" <> e.pod_name

  abbrev pub fresh_entries :
      Duration → Time → List (AnomalyEntry floats) → List (AnomalyEntry floats)
  fresh_entries window now entries = keep (λ e. within now window e.received_at) entries

  -- The loop that keeps the first entry of each pod.
  unfoldable pub unique_pods : List String → List (AnomalyEntry floats) → List (AnomalyEntry floats)
  unique_pods seen [] = []
  unique_pods seen (e ∷ es) =
      if any (λ k. k == pod_key e) seen
      then unique_pods seen es
      else e ∷ unique_pods (pod_key e ∷ seen) es

  -- What a flush makes of the window of one node: the window that stays, and the incident. The loop
  -- over the pods writes into the array of the stored window, so that the pods' first entries stand
  -- at its start and the rest of it stays.
  unfoldable pub flush_window :
      AggregatorConfig
      → (now end' : Time) → List (AnomalyEntry floats)
      → Option (List (AnomalyEntry floats)) × Option (NodeIncident floats)
  flush_window cfg now end' entries =
      let fresh = fresh_entries cfg.aggregation_window now entries in
      let unique = unique_pods [] fresh in
      if nat_eq (length fresh) 0
      then (none, none)
      else if ltb (length unique) cfg.min_pods_threshold
      then (some (unique ++ drop (length unique) fresh), none)
      else (
        none,
        some (record {
          node_name = elim unique [ [] ↦ "" | e ∷ _ ↦ e.node_name ];
          anomalies = unique;
          window_end = end';
        }),
      )

  abbrev pub put :
      String
      → Option (List (AnomalyEntry floats))
      → Keyed String (List (AnomalyEntry floats))
      → Keyed String (List (AnomalyEntry floats))
  put node none windows = windows
  put node (some kept) windows = (node, kept) ∷ windows

  abbrev pub put_incident :
      Option (NodeIncident floats) → List (NodeIncident floats) → List (NodeIncident floats)
  put_incident none incidents = incidents
  put_incident (some i) incidents = i ∷ incidents

  -- The loop over the windows; `ends` is the clock when the incident of a node is built.
  unfoldable pub flush_windows :
      AggregatorConfig
      → (now : Time) (ends : String → Time) → Keyed String (List (AnomalyEntry floats))
      → Keyed String (List (AnomalyEntry floats)) × List (NodeIncident floats)
  flush_windows cfg now ends [] = ([], [])
  flush_windows cfg now ends ((node, entries) ∷ rest) =
      let (windows, incidents) = flush_windows cfg now ends rest in
      let (kept, incident) = flush_window cfg now (ends node) entries in
      (put node kept windows, put_incident incident incidents)

  -- `flush`, with the calls of the handler in order.
  unfoldable pub flush :
      (now : Time) (ends : String → Time) → Aggregator → Aggregator × List (NodeIncident floats)
  flush now ends a =
      let (windows, incidents) = flush_windows a.cfg now ends a.windows in
      (record a { windows = windows }, incidents)
