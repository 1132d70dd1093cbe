-- ===== src/Guardrails/Samples.antt =====
-- A small guardrails configuration, for the tests.
use self_healing_kubernetes.Base.{
  ◌*◌, String, true, false, Option, none, some, [], ◌∷◌, ◌==◌, string_Eq, if◌then◌else◌, Duration,
  second, minute,
}
use self_healing_kubernetes.Guardrails.Policy.{Policy, ActionConfig}

-- `time.ParseDuration` on the texts of the configuration.
abbrev pub parse_duration : String → Option Duration
parse_duration s =
    if s == "60s" then some (60 * second) else if s == "5m" then some (5 * minute) else none

abbrev pub config : ActionConfig
config = record {
  risk_level = "low";
  requires_confirmation = false;
  cooldown = "60s";
  max_per_hour = 2;
  max_memory_increase_pct = 50;
  max_cpu_increase_pct = 0;
  min_affected_pods = 0;
  max_scale_factor = 0;
}

abbrev pub policy : Policy
policy = record {
  global = record { max_actions_per_10s = 1; max_actions_per_minute = 6; dry_run = false };
  dry_run_mode = record { enabled = false; log_would_have_acted = false };
  per_pod = record {
    max_restarts_per_hour = 3;
    cooldown_after_restart = "60s";
    max_resource_patches_per_hour = 2;
    cooldown_after_resource_patch = "5m";
    max_reschedules_per_hour = 2;
    cooldown_after_reschedule = "120s";
  };
  per_node = record {
    max_cordons_per_hour = 1;
    cooldown_after_cordon = "10m";
    cordon_requires_min_affected_pods = 3;
    drain_requires_manual_approval = true;
  };
  escalation = record {
    restart_observation_window = "60s";
    reschedule_observation_window = "120s";
    max_autonomous_attempts = 5;
    escalation_path = [];
  };
  circuit_breaker = record {
    enabled = true;
    trigger_on_failure_pct = 50;
    evaluation_window = "5m";
    response = "pause_all_actions";
    pause_duration = "5m";
    alert_on_trip = true;
  };
  protected_namespaces = "kube-system" ∷ [];
  protected_labels = record { key = "tier"; value = "critical" } ∷ [];
  actions =
      ("restart_pod", config)
      ∷ ("reschedule_pod", config)
      ∷ ("cordon_node", record config { requires_confirmation = true })
      ∷ [];
}
