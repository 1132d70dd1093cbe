-- ===== src/Intelligence/Reasoner.antt =====
-- internal/intelligence/reasoner.go: the root cause of an incident. Logs and metrics are left out.
-- `equal_fold` is `strings.EqualFold`.
pub mod Majority
use self_healing_kubernetes.Base.{
  ℕ, suc, ◌+◌, String, Bool, true, false, not, ◌&&◌, Option, none, some, List, [], ◌∷◌, ◌++◌,
  length, any, all, map, tally, ltb, nat_eq, ◌==◌, string_Eq, if◌then◌else◌, Keyed, lookup, insert,
  Time,
}
use self_healing_kubernetes.Analyzer.Window.{Floats}
use self_healing_kubernetes.Intelligence.Incident.{
  degraded_disk, network_partition, cpu_starvation, memory_pressure, unknown, PodRef, AnomalyEntry,
  NodeIncident, IncidentEvent,
}
use self_healing_kubernetes.Intelligence.Graph.{
  DependencyGraph, shared_volumes, resource_id, kind_pod, kind_node,
}
use self_healing_kubernetes.Intelligence.Scorer.{NodeStats, record_anomaly}

-- `signalCounts[sig]`, 0 for a missing key.
unfoldable pub count_at : String → Keyed String ℕ → ℕ
count_at sig counts = elim (lookup sig counts) [ none ↦ 0 | some n ↦ n ]

-- `for _, sig := range a.Signals { signalCounts[sig]++ }`
unfoldable pub count_signals : List String → Keyed String ℕ → Keyed String ℕ
count_signals [] counts = counts
count_signals (sig ∷ sigs) counts = count_signals sigs (insert sig (count_at sig counts + 1) counts)

unfoldable pub pattern_matches_majority : List String → Keyed String ℕ → (threshold : ℕ) → Bool
pattern_matches_majority signals counts threshold =
    all (λ sig. not (ltb (count_at sig counts) threshold)) signals

module _ (floats : Floats) where
  open floats use {Float}

  abbrev pub hundredth : ℕ → Float
  hundredth n = floats.divide (floats.from_nat n) (floats.from_nat 100)

  pub record SignalPattern : Type 0 where
    pub signals : List String
    pub root_cause : String
    pub base_conf : Float
    pub suggestion : String

  abbrev pub root_cause_patterns : List SignalPattern
  root_cause_patterns =
      record {
        signals = "io_wait_high" ∷ "disk_io_lat" ∷ [];
        root_cause = degraded_disk;
        base_conf = hundredth 80;
        suggestion = "cordon_node";
      }
      ∷ record {
        signals = "tcp_retransmit" ∷ [];
        root_cause = network_partition;
        base_conf = hundredth 75;
        suggestion = "investigate_network";
      }
      ∷ record {
        signals = "cpu_runqueue_delay" ∷ [];
        root_cause = cpu_starvation;
        base_conf = hundredth 75;
        suggestion = "cordon_node";
      }
      ∷ record {
        signals = "oom_kill" ∷ [];
        root_cause = memory_pressure;
        base_conf = hundredth 80;
        suggestion = "patch_resource_limits";
      }
      ∷ []

  -- `int(float64(totalPods)*MajorityThreshold) + 1`; `none` is a number below 0.
  abbrev pub majority : ℕ → Option ℕ
  majority total_pods =
      elim (floats.truncate (floats.multiply (floats.from_nat total_pods) (hundredth 60))) [
        | none ↦ none
        | some n ↦ some (n + 1)
      ]

  unfoldable pub count_all : List (AnomalyEntry floats) → Keyed String ℕ → Keyed String ℕ
  count_all [] counts = counts
  count_all (a ∷ anomalies) counts = count_all anomalies (count_signals a.signals counts)

  -- The loop that stops at the first pattern that matches; `none` is that no pattern does.
  unfoldable pub first_match :
      (counts : Keyed String ℕ) (threshold : ℕ) → List SignalPattern → Option SignalPattern
  first_match counts threshold [] = none
  first_match counts threshold (p ∷ ps) =
      if pattern_matches_majority p.signals counts threshold
      then some p
      else first_match counts threshold ps

  -- The signals of the first pattern of a root cause, nil without one.
  unfoldable pub matched_signals : String → List SignalPattern → List String
  matched_signals rc [] = []
  matched_signals rc (p ∷ ps) = if p.root_cause == rc then p.signals else matched_signals rc ps

  unfoldable pub count_pods_meeting_pattern :
      (equal_fold : String → String → Bool) (rc : String)
      → List (AnomalyEntry floats)
      → List SignalPattern
      → Float
  count_pods_meeting_pattern equal_fold rc anomalies patterns =
      let matched = matched_signals rc patterns in
      if nat_eq (length matched) 0
      then floats.from_nat 1
      else if nat_eq (length anomalies) 0
      then floats.from_nat 1
      else floats.divide
          (floats.from_nat
            (tally (λ a. any (λ sig. any (λ pat. equal_fold sig pat) matched) a.signals) anomalies))
          (floats.from_nat (length anomalies))

  unfoldable pub clamp : (v lo hi : Float) → Float
  clamp v lo hi = if floats.greater lo v then lo else if floats.greater v hi then hi else v

  abbrev pub pod_ref : AnomalyEntry floats → PodRef
  pod_ref a = record {
    name = a.pod_name;
    namespace = a.namespace;
    deployment = a.deployment;
    signals = a.signals;
  }

  -- The namespace of the incident: the first one's, or "cluster" where there is another.
  unfoldable pub incident_namespace : AnomalyEntry floats → List (AnomalyEntry floats) → String
  incident_namespace first rest =
      if any (λ a. not (a.namespace == first.namespace)) rest then "cluster" else first.namespace

  pub record Cause : Type 0 where
    pub root_cause : String
    pub base_conf : Float
    pub suggestion : String

  -- The root cause, where no pattern matches the unknown one.
  unfoldable pub cause_of : Option SignalPattern → Cause
  cause_of none = record {
    root_cause = unknown;
    base_conf = hundredth 50;
    suggestion = "investigate_node";
  }
  cause_of (some p) = record {
    root_cause = p.root_cause;
    base_conf = p.base_conf;
    suggestion = p.suggestion;
  }

  unfoldable pub confidence_of :
      (equal_fold : String → String → Bool)
      → Cause
      → List (AnomalyEntry floats)
      → (shared : List String) → Float
  confidence_of equal_fold cause anomalies shared =
      let product : Float =
        floats.multiply cause.base_conf
          (count_pods_meeting_pattern equal_fold cause.root_cause anomalies root_cause_patterns) in
      let capped : Float =
        if floats.greater product (floats.from_nat 1) then floats.from_nat 1 else product in
      if ltb 0 (length shared) && (cause.root_cause == degraded_disk)
      then clamp (floats.add capped (hundredth 10)) floats.zero (floats.from_nat 1)
      else capped

  -- `none` is the error of an empty incident; a threshold below 0 never fails a pattern, as 0.
  unfoldable pub classify :
      (equal_fold : String → String → Bool)
      → DependencyGraph
      → (now : Time) → NodeIncident floats
      → Option (IncidentEvent floats)
  classify equal_fold g now incident = elim incident.anomalies [
    | [] ↦ none
    | first ∷ rest ↦
        let anomalies : List (AnomalyEntry floats) = first ∷ rest in
        let counts = count_all anomalies [] in
        let threshold : ℕ = elim (majority (length anomalies)) [ none ↦ 0 | some n ↦ n ] in
        let cause = cause_of (first_match counts threshold root_cause_patterns) in
        let shared =
          shared_volumes g (map (λ a. resource_id kind_pod a.namespace a.pod_name) anomalies) in
        some (record {
          root_cause = cause.root_cause;
          root_cause_conf = confidence_of equal_fold cause anomalies shared;
          affected_node = incident.node_name;
          affected_pods = map pod_ref anomalies;
          signal_summary = counts;
          shared_volumes = shared;
          suggested_action = cause.suggestion;
          namespace = incident_namespace first rest;
          detected_at = now;
        })
  ]

  -- The loop `for range incident.Anomalies { r.scorer.RecordAnomaly(nodeID) }` with one clock reading.
  unfoldable pub record_each :
      String → Time → List (AnomalyEntry floats) → Keyed String NodeStats → Keyed String NodeStats
  record_each node now [] stats = stats
  record_each node now (a ∷ anomalies) stats =
      record_each node now anomalies (record_anomaly node now now now stats)

  -- `Analyse`: the statistics, and the incidents that are handed to the publisher; `marshals` tells
  -- whether `json.Marshal` succeeds. The outcome of the publication is only logged.
  unfoldable pub analyse :
      (equal_fold : String → String → Bool) (marshals : IncidentEvent floats → Bool)
      (has_publisher : Bool)
      → DependencyGraph
      → (now : Time) → NodeIncident floats
      → Keyed String NodeStats
      → Keyed String NodeStats × List (IncidentEvent floats)
  analyse equal_fold marshals has_publisher g now incident stats =
      elim (classify equal_fold g now incident) [
        | none ↦ (stats, [])
        | some ev ↦ (
          record_each (resource_id kind_node "" incident.node_name) now incident.anomalies stats,
          if has_publisher && marshals ev then ev ∷ [] else [],
        )
      ]
