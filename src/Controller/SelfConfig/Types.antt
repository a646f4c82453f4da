-- ===== src/Controller/SelfConfig/Types.antt =====
-- The self-configuration's objects: api/v1alpha1/clawselfconfig_types.go and the parts of
-- api/v1alpha1/claw_types.go that its controller reads. `Rest` is what it does not read of a claw.
use k8s4claw.Base.{ℕ, String, Bool, Option, List, Dict}
use k8s4claw.Controller.AutoUpdate.Cluster.{Found}

-- `ClawSelfConfigPhase`; a new object has no phase.
pub data ClawSelfConfigPhase : Type 0 where
  unset pending applied phase_failed denied : ClawSelfConfigPhase

pub record EnvVar : Type 0 where
  pub name : String
  pub value : String

pub record ClawSelfConfigSpec : Type 0 where
  pub claw_ref : String
  pub add_skills : List String
  pub remove_skills : List String
  pub config_patch : Dict String
  pub add_workspace_files : Dict String
  pub remove_workspace_files : List String
  pub add_env_vars : List EnvVar
  pub remove_env_vars : List String

-- `owner` is the claw that the owner reference names.
pub record ClawSelfConfig : Type 0 where
  pub name : String
  pub owner : Option String
  pub spec : ClawSelfConfigSpec
  pub phase : ClawSelfConfigPhase
  pub message : String
  pub applied_at : Option ℕ

pub record SelfConfigureSpec : Type 0 where
  pub enabled : Bool
  pub allowed_actions : List String

pub record Claw (Rest : Type 0) : Type 0 where
  pub name : String
  pub annotations : Dict String
  pub self_configure : Option SelfConfigureSpec
  pub rest : Rest

-- The answers of the cluster in one reconciliation, and the time.
pub record Cluster (Rest : Type 0) : Type 0 where
  pub self_config : Found ClawSelfConfig
  pub claw : Found (Claw Rest)
  pub delete : Bool
  pub set_owner_reference : Bool
  pub update : Bool
  pub update_claw : Bool
  pub update_status : Bool
  pub now : ℕ

pub data Call (Rest : Type 0) : Type 0 where
  delete_self_config : ClawSelfConfig → Call Rest
  update_self_config : ClawSelfConfig → Call Rest
  write_claw : Claw Rest → Call Rest
  write_status : ClawSelfConfig → Call Rest
  event : String → Call Rest
