-- ===== src/Intelligence/Incident.antt =====
-- internal/intelligence/incident.go: the data of an incident. The metrics are left out.
use self_healing_kubernetes.Base.{ℕ, String, List, Keyed, Time}
use self_healing_kubernetes.Analyzer.Window.{Floats}

abbrev pub RootCause : Type 0
RootCause = String

abbrev pub degraded_disk : String
degraded_disk = "degraded_disk"

abbrev pub network_partition : String
network_partition = "network_partition"

abbrev pub cpu_starvation : String
cpu_starvation = "cpu_starvation"

abbrev pub memory_pressure : String
memory_pressure = "memory_pressure"

abbrev pub unknown : String
unknown = "unknown"

pub record PodRef : Type 0 where
  pub name : String
  pub namespace : String
  pub deployment : String
  pub signals : List String

module _ (floats : Floats) where
  open floats use {Float}

  pub record AnomalyEntry : Type 0 where
    pub pod_name : String
    pub namespace : String
    pub deployment : String
    pub node_name : String
    pub signals : List String
    pub confidence : Float
    pub received_at : Time

  -- The start of the window is given by its length and its end.
  pub record NodeIncident : Type 0 where
    pub node_name : String
    pub anomalies : List AnomalyEntry
    pub window_end : Time

  -- The random identifier is left out; `detected_at` also stands for its copy in milliseconds.
  pub record IncidentEvent : Type 0 where
    pub root_cause : String
    pub root_cause_conf : Float
    pub affected_node : String
    pub affected_pods : List PodRef
    pub signal_summary : Keyed String ℕ
    pub shared_volumes : List String
    pub suggested_action : String
    pub namespace : String
    pub detected_at : Time
