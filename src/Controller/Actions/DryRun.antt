-- ===== src/Controller/Actions/DryRun.antt =====
-- In a dry run no action changes the cluster.
use self_healing_kubernetes.Base.{
  String, ◌≡◌, refl, true, Option, none, some, arith, string_Eq, Keyed, lookup,
}
use self_healing_kubernetes.Controller.Kubernetes.{Api, avoid_node}
use self_healing_kubernetes.Controller.Actions.{
  Executor, restart, patch_limits, reschedule, cordon, Target, execute, execute_with, execute_found,
}

module _ (api : Api) where
  open api use {Cluster}

  execute_with_dry_run :
      (e : Executor) (c : Cluster) (target : Target) → (execute_with api e c target true).1 ≡ c
  unfolding execute_with
  execute_with_dry_run restart c target = ground arith
  execute_with_dry_run (patch_limits pct) c target = ground arith
  execute_with_dry_run reschedule c target = ground (
    arith,
    api.patch_deployment_dry_run c target.namespace target.deployment (avoid_node target.node),
  )
  execute_with_dry_run cordon c target = ground arith

  execute_found_dry_run :
      (e : Option Executor) (c : Cluster) (target : Target)
      → (execute_found api e c target true).1 ≡ c
  unfolding execute_found
  execute_found_dry_run none c target = refl
  execute_found_dry_run (some e) c target = execute_with_dry_run e c target

  -- A dry run of any action by name, registered or not, leaves the cluster as it was.
  pub execute_dry_run :
      (d : Keyed String Executor) (action : String) (c : Cluster) (target : Target)
      → (execute api d action c target true).1 ≡ c
  unfolding execute
  execute_dry_run d action c target = execute_found_dry_run (lookup action d) c target
