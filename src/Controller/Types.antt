-- ===== src/Controller/Types.antt =====
-- internal/controller/types.go: the events and the enumerations of the controller. The confidence of
-- an anomaly is carried through unread, so its type `F` is a parameter. In the events the JSON names
-- are left out, and so are `Patch`, `FromValue` and `ToValue`, which no code sets.
use self_healing_kubernetes.Base.{ℕ, String, ◌≡◌, ◌↔◌, Bool, true, false, arith, Eq, List, Time}

module _ (F : Type 0) where
  pub record AnomalyEvent : Type 0 where
    pub anomaly_id : String
    pub kind : String
    pub confidence : F
    pub affected_pod : String
    pub affected_node : String
    pub namespace : String
    pub deployment : String
    pub signals : List String
    pub suggested_cause : String
    pub suggested_action : String
    pub timestamp : ℕ
    pub ttl_s : ℕ

  pub record ActionEvent : Type 0 where
    pub action_id : String
    pub anomaly_id : String
    pub action : String
    pub target_kind : String
    pub target_name : String
    pub target_namespace : String
    pub target_node : String
    pub reason : String
    pub confidence : F
    pub dry_run : Bool
    pub attempt : ℕ
    pub timestamp : ℕ

pub record OutcomeEvent : Type 0 where
  pub action_id : String
  pub anomaly_id : String
  pub resolved : Bool
  pub resolution_type : String
  pub resolution_ms : ℕ
  pub observed_at : Time
  pub timestamp : ℕ

-- `empty` is the zero value "".
pub data ActionType : Type 0 where
  empty restart_pod patch_limits reschedule_pod cordon_node manual : ActionType

-- The text of the constant.
abbrev pub action_name : ActionType → String
action_name empty = ""
action_name restart_pod = "restart_pod"
action_name patch_limits = "patch_resource_limits"
action_name reschedule_pod = "reschedule_pod"
action_name cordon_node = "cordon_node"
action_name manual = "manual"

abbrev pub action_beq : ActionType → ActionType → Bool
action_beq empty empty = true
action_beq restart_pod restart_pod = true
action_beq patch_limits patch_limits = true
action_beq reschedule_pod reschedule_pod = true
action_beq cordon_node cordon_node = true
action_beq manual manual = true
action_beq _ _ = false

pub action_beq_iff : (a b : ActionType) → (action_beq a b ≡ true) ↔ (a ≡ b)
action_beq_iff a b = (ground arith, ground arith)

instance abbrev pub action_Eq : Eq ActionType
action_Eq = record { equal = action_beq; equal_iff = action_beq_iff }

pub data EscalationState : Type 0 where
  observing action_taken escalating node_suspect manual resolved : EscalationState
