-- ===== src/Controller/Actions.antt =====
-- internal/controller/actions: the four executors and the dispatcher. An executor returns its error
-- (`none` is nil) and the cluster; logging and the marshalling of the constant patches, which cannot
-- fail, are left out.
pub mod DryRun
pub mod Memory
use self_healing_kubernetes.Base.{
  ℕ, ◌+◌, ◌*◌, ◌/◌, String, Bool, true, false, ◌||◌, Option, none, some, List, [], ◌∷◌, ltb, ◌==◌,
  nat_eq, string_Eq, if◌then◌else◌, Keyed, lookup, insert,
}
use self_healing_kubernetes.Controller.Kubernetes.{
  Api, Container, Deployment, Node, Patch, memory_limit, avoid_node, make_unschedulable,
}

pub record Target : Type 0 where
  pub pod : String
  pub namespace : String
  pub node : String
  pub deployment : String
  pub labels : Keyed String String

pub data ActionError : Type 0 where
  unknown_action missing_name : ActionError
  get_failed no_containers : ActionError
  delete_failed patch_failed : ActionError

-- `maxMemoryIncreasePct` is the argument.
pub data Executor : Type 0 where
  restart : Executor
  patch_limits : ℕ → Executor
  reschedule : Executor
  cordon : Executor

abbrev pub executor_name : Executor → String
executor_name restart = "restart_pod"
executor_name (patch_limits pct) = "patch_resource_limits"
executor_name reschedule = "reschedule_pod"
executor_name cordon = "cordon_node"

module _ (api : Api) where
  open api use {Cluster}

  abbrev pub Done : Type 0
  Done = Option ActionError × Cluster

  -- The result of a write.
  abbrev pub written : ActionError → Bool × Cluster → Done
  written e (true, c) = (none, c)
  written e (false, c) = (some e, c)

  unfoldable pub execute_restart : Cluster → Target → Bool → Done
  execute_restart c target dry_run =
      if target.pod == "" || target.namespace == ""
      then (some missing_name, c)
      else if dry_run
      then (none, c)
      else written delete_failed (api.delete_pod c target.namespace target.pod)

  -- The limit of 512Mi that stands in for none.
  abbrev pub baseline : ℕ
  baseline = 512 * 1024 * 1024

  -- `int64(float64(currentBytes) * multiplier)`: by 1.5, which is exact, or by the cap below it.
  unfoldable pub increased : (pct current : ℕ) → ℕ
  increased pct current = if ltb pct 50 then api.scaled current pct else current * 3 / 2

  unfoldable pub new_bytes : (pct : ℕ) → Container → ℕ
  unfolding increased
  new_bytes pct container =
      increased pct (if nat_eq container.memory_limit 0 then baseline else container.memory_limit)

  patch_first : Cluster → Target → Bool → (pct : ℕ) → List Container → Done
  patch_first c target dry_run pct [] = (some no_containers, c)
  patch_first c target dry_run pct (container ∷ rest) =
      if dry_run
      then (none, c)
      else written patch_failed (
          api.patch_deployment c target.namespace target.deployment
            (memory_limit container.name (new_bytes pct container)) false)

  unfoldable pub execute_patch_limits : (pct : ℕ) → Cluster → Target → Bool → Done
  unfolding patch_first
  execute_patch_limits pct c target dry_run =
      if target.deployment == ""
      then (some missing_name, c)
      else elim (api.get_deployment c target.namespace target.deployment) [
        | none ↦ (some get_failed, c)
        | some deploy ↦ patch_first c target dry_run pct deploy.containers
      ]

  -- The error of this patch is logged only, so the cluster is all that is returned.
  unfoldable pub inject_anti_affinity : Cluster → Target → Bool → Cluster
  inject_anti_affinity c target dry_run =
      if target.deployment == ""
      then c
      else (api.patch_deployment c target.namespace target.deployment (avoid_node target.node)
          dry_run).1

  unfoldable pub execute_reschedule : Cluster → Target → Bool → Done
  unfolding inject_anti_affinity
  execute_reschedule c target dry_run =
      if target.pod == "" || target.namespace == ""
      then (some missing_name, c)
      else if target.node == ""
      then (some missing_name, c)
      else (let c' = inject_anti_affinity c target dry_run in
          if dry_run
          then (none, c')
          else written delete_failed (api.delete_pod c' target.namespace target.pod))

  unfoldable pub execute_cordon : Cluster → Target → Bool → Done
  execute_cordon c target dry_run =
      if target.node == "" then (some missing_name, c) else elim (api.get_node c target.node) [
        | none ↦ (some get_failed, c)
        | some node ↦
            if node.unschedulable
            then (none, c)
            else if dry_run
            then (none, c)
            else written patch_failed (api.patch_node c target.node make_unschedulable)
      ]

  unfoldable pub affected_pod_count : Cluster → (node namespace : String) → Option ℕ
  affected_pod_count c node namespace = api.count_pods c namespace node

  unfoldable pub execute_with : Executor → Cluster → Target → Bool → Done
  unfolding execute_restart execute_patch_limits execute_reschedule execute_cordon
  execute_with restart = execute_restart
  execute_with (patch_limits pct) = execute_patch_limits pct
  execute_with reschedule = execute_reschedule
  execute_with cordon = execute_cordon

  abbrev pub Dispatcher : Type 0
  Dispatcher = Keyed String Executor

  abbrev pub register : Executor → Keyed String Executor → Keyed String Executor
  register e d = insert (executor_name e) e d

  unfoldable pub new_dispatcher : ℕ → Keyed String Executor
  new_dispatcher pct =
      register cordon (register reschedule (register (patch_limits pct) (register restart [])))

  unfoldable pub execute_found : Option Executor → Cluster → Target → Bool → Done
  execute_found none c target dry_run = (some unknown_action, c)
  execute_found (some e) c target dry_run = execute_with e c target dry_run

  unfoldable pub execute : Keyed String Executor → String → Cluster → Target → Bool → Done
  unfolding execute_found
  execute d action = execute_found (lookup action d)
