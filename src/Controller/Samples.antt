-- ===== src/Controller/Samples.antt =====
-- A small cluster and a context, for the tests.
use self_healing_kubernetes.Base.{
  ℕ, suc, refl, true, false, some, [], ◌∷◌, string_Eq, if◌then◌else◌,
}
use self_healing_kubernetes.Controller.Kubernetes.{Api, Pod}
use self_healing_kubernetes.Controller.Escalation as Escalation
use self_healing_kubernetes.Controller.Escalation.{key_Eq}

-- A cluster that counts the writes that were persisted; every pod runs.
abbrev pub running : Pod
running = record {
  labels = ("app", "web") ∷ [];
  phase = "Running";
  conditions = record { kind = "Ready"; status = "True" } ∷ [];
}

abbrev pub api : Api
api = record {
  Cluster = ℕ;
  get_pod = λ c namespace name. some running;
  get_deployment = λ c namespace name.
      some (record { containers = record { name = "main"; memory_limit = 0 } ∷ [] });
  get_node = λ c name. some (record { unschedulable = false });
  count_pods = λ c namespace node. some 1;
  delete_pod = λ c namespace name. (true, suc c);
  patch_deployment = λ c namespace name p dry_run. (true, if dry_run then c else suc c);
  patch_node = λ c name p. (true, suc c);
  patch_deployment_dry_run = λ c namespace name p. refl;
  scaled = λ bytes pct. bytes;
}

abbrev pub web : Escalation.EscalationKey
web = record { pod = "web"; namespace = "shop"; anomaly_type = "oom" }
