-- ===== src/Controller/Kubernetes.antt =====
-- What the controller uses of the Kubernetes API, as a parameter: the cluster, its reads and its
-- writes. `none` from a read and `false` from a write stand for an error.
use self_healing_kubernetes.Base.{ℕ, String, ◌≡◌, Bool, true, Option, List, Keyed}

pub record Condition : Type 0 where
  pub kind : String
  pub status : String

pub record Pod : Type 0 where
  pub labels : Keyed String String
  pub phase : String
  pub conditions : List Condition

-- The memory limit in bytes, 0 where none is set.
pub record Container : Type 0 where
  pub name : String
  pub memory_limit : ℕ

pub record Deployment : Type 0 where
  pub containers : List Container

pub record Node : Type 0 where
  pub unschedulable : Bool

-- The three patch documents that the actions send.
pub data Patch : Type 0 where
  memory_limit : (container : String) (bytes : ℕ) → Patch
  avoid_node : String → Patch
  make_unschedulable : Patch

pub record Api : Type 1 where
  pub Cluster : Type 0
  pub get_pod : Cluster → (namespace name : String) → Option Pod
  pub get_deployment : Cluster → (namespace name : String) → Option Deployment
  pub get_node : Cluster → String → Option Node
  -- The pods of the namespace with `spec.nodeName` equal to the node.
  pub count_pods : Cluster → (namespace node : String) → Option ℕ
  pub delete_pod : Cluster → (namespace name : String) → Bool × Cluster
  pub patch_deployment :
      Cluster → (namespace name : String) → Patch → (dry_run : Bool) → Bool × Cluster
  pub patch_node : Cluster → String → Patch → Bool × Cluster
  -- `DryRunAll`: the request is processed and nothing is persisted.
  pub patch_deployment_dry_run :
      (c : Cluster) (namespace name : String) (p : Patch)
      → (patch_deployment c namespace name p true).1 ≡ c
  -- `int64(float64(bytes) * (1.0 + float64(pct)/100.0))`, the floating-point product.
  pub scaled : (bytes pct : ℕ) → ℕ
