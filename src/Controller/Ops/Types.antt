-- ===== src/Controller/Ops/Types.antt =====
-- The data of the operations controller: api/v1alpha1/clawopsescalation_types.go and
-- internal/controller/clawops_controller.go, with the libraries and the answers of the API server
-- as records. Times are in nanoseconds.
use k8s4claw.Base.{ℕ, ◌*◌, String, Bool, true, false, Option, List, [], ℤ, Dict}
use k8s4claw.Rules.Types.{Severity, TriggerType, ActionType, minute}
use k8s4claw.Rules.Engine.{Engine}
use k8s4claw.Controller.Intent.Types.{OpsIntent}

-- The phases that the API admits, and the one of a resource whose status was never written.
pub data EscalationPhase : Type 0 where
  unset : EscalationPhase
  pending : EscalationPhase
  auto_executed : EscalationPhase
  analyzing : EscalationPhase
  proposed : EscalationPhase
  awaiting_approval : EscalationPhase
  approved : EscalationPhase
  executed : EscalationPhase
  rejected : EscalationPhase
  failed : EscalationPhase

unfoldable pub is_terminal_phase : EscalationPhase → Bool
is_terminal_phase auto_executed = true
is_terminal_phase executed = true
is_terminal_phase rejected = true
is_terminal_phase failed = true
is_terminal_phase unset = false
is_terminal_phase pending = false
is_terminal_phase analyzing = false
is_terminal_phase proposed = false
is_terminal_phase awaiting_approval = false
is_terminal_phase approved = false

-- `phase == Approved`
unfoldable pub is_approved : EscalationPhase → Bool
is_approved approved = true
is_approved unset = false
is_approved pending = false
is_approved auto_executed = false
is_approved analyzing = false
is_approved proposed = false
is_approved awaiting_approval = false
is_approved executed = false
is_approved rejected = false
is_approved failed = false

-- `phase == Pending`
unfoldable pub is_pending : EscalationPhase → Bool
is_pending pending = true
is_pending unset = false
is_pending auto_executed = false
is_pending analyzing = false
is_pending proposed = false
is_pending awaiting_approval = false
is_pending approved = false
is_pending executed = false
is_pending rejected = false
is_pending failed = false

pub record TriggerInfo : Type 0 where
  pub type : TriggerType
  pub message : String
  pub first_seen : Option ℕ
  pub count : ℕ

-- `ClawOpsEscalation`: its metadata, its spec and its status, as far as they are read or written.
pub record Escalation : Type 0 where
  pub name : String
  pub generate_name : String
  pub namespace : String
  pub owner : String
  pub owner_uid : String
  pub created : ℕ
  pub claw_ref : String
  pub trigger : TriggerInfo
  pub severity : Severity
  pub ttl_seconds_after_finished : Option ℤ
  pub phase : EscalationPhase
  pub matched_rule : String
  pub analysis : String
  pub proposed_action : String
  pub executed_action : String
  pub executed_at : Option ℕ
  pub signet_receipt : String
  pub approved_by : String
  pub approved_at : Option ℕ
  pub rejection_reason : String

pub record ClawOpsConfig : Type 0 where
  pub max_actions_per_claw_per_hour : ℕ
  pub circuit_breaker_threshold : ℕ
  pub metric_poll_interval : ℕ
  pub escalation_ttl : ℤ

abbrev pub second : ℕ
second = 1_000_000_000

abbrev pub hour : ℕ
hour = 60 * minute

abbrev pub default_claw_ops_config : ClawOpsConfig
default_claw_ops_config = record {
  max_actions_per_claw_per_hour = 5;
  circuit_breaker_threshold = 3;
  metric_poll_interval = 60 * second;
  escalation_ttl = ℤ.pos 604_800;
}

-- The state of the controller: the rule engine, and the times of the recent actions of each claw.
pub record Ops : Type 0 where
  pub config : ClawOpsConfig
  pub rule_engine : Engine
  pub action_counts : Dict (List ℕ)

unfoldable pub init_action_counts : Ops → Ops
init_action_counts ops = record ops { action_counts = [] }

-- What the controller reads and writes of a `Claw`.
pub record Claw : Type 0 where
  pub name : String
  pub namespace : String
  pub uid : String
  pub annotations : Dict String

pub record ContainerStatus : Type 0 where
  pub name : String
  pub restart_count : ℕ
  -- The reason of the last termination and of the current wait, if there is one.
  pub last_terminated : Option String
  pub waiting : Option String

pub record Pod : Type 0 where
  pub name : String
  pub phase : String
  pub reason : String
  pub message : String
  pub container_statuses : List ContainerStatus

pub record SignRequest : Type 0 where
  pub key : String
  pub tool : ActionType
  pub params : Dict String
  pub target : String

-- Libraries: the text of a count, the JSON of an intent, and the signer.
pub record Platform : Type 0 where
  pub format_count : ℕ → String
  pub marshal : OpsIntent → String
  pub sign : SignRequest → Option String

-- What the server adds to a resource that it creates.
pub record Created : Type 0 where
  pub name : String
  pub created : ℕ

pub data Got : Type 0 where
  not_found : Got
  get_error : Got
  found : Claw → Got

-- The clock and the answers of the API server during one reconciliation. Lists come from a cache,
-- so the three lists of escalations are not taken to be the same, nor to have in them what was
-- created before. A patch is answered with the annotations that the object then has; a deletion
-- counts as done if there was nothing to delete.
pub record Cluster : Type 0 where
  pub now : ℕ
  pub get : Got
  pub listed_for_approval : Option (List Escalation)
  pub listed_for_gc : Option (List Escalation)
  pub listed_for_dedup : Option (List Escalation)
  pub pods : Option (List Pod)
  pub patch : Claw → Option (Dict String)
  pub create : Escalation → Option Created
  pub update_status : Escalation → Bool
  pub delete : Escalation → Bool

-- The calls that change something outside, in order.
pub data Call : Type 0 where
  patch_claw : Claw → Call
  create_escalation : Escalation → Call
  update_escalation : Escalation → Call
  delete_escalation : Escalation → Call
  event : String → Call

-- What a method leaves: its calls and whether it returns an error.
pub record Done : Type 0 where
  pub calls : List Call
  pub is_error : Bool

pub record Outcome : Type 0 where
  pub calls : List Call
  pub ops : Ops
  pub is_error : Bool
