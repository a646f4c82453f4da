-- ===== src/Controller/SelfConfig/Tests.antt =====
-- A self-configuration of one skill that its claw allows.
use k8s4claw.Base.{◌≡◌, refl, ◌+◌, String, true, none, some, List, [], ◌∷◌, ◌++◌, All}
use k8s4claw.Controller.AutoUpdate.Cluster.{found}
use k8s4claw.Controller.SelfConfig.Types.{
  unset, applied, ClawSelfConfigSpec, ClawSelfConfig, Claw, Cluster, Call, update_self_config,
  write_claw, write_status, event,
}
use k8s4claw.Controller.SelfConfig.{
  self_config_ttl, reconcile, reconcile_found, reconcile_phase, with_claw, configure, validate,
  validate_actions, first_error, is_allowed, apply, mark, apply_changes,
}
use k8s4claw.Controller.SelfConfig.Final.{OnlyExpires, written_once}

abbrev asked : ClawSelfConfigSpec
asked = record {
  claw_ref = "claw";
  add_skills = "search" ∷ [];
  remove_skills = [];
  config_patch = [];
  add_workspace_files = [];
  remove_workspace_files = [];
  add_env_vars = [];
  remove_env_vars = [];
}

abbrev self_config : ClawSelfConfig
self_config = record {
  name = "request";
  owner = none;
  spec = asked;
  phase = unset;
  message = "";
  applied_at = none;
}

abbrev claw : Claw String
claw = record {
  name = "claw";
  annotations = [];
  self_configure = some (record { enabled = true; allowed_actions = "skills" ∷ [] });
  rest = "the spec";
}

abbrev cluster : Cluster String
cluster = record {
  self_config = found self_config;
  claw = found claw;
  delete = true;
  set_owner_reference = true;
  update = true;
  update_claw = true;
  update_status = true;
  now = 7;
}

abbrev owned : ClawSelfConfig
owned = record self_config { owner = some "claw" }

abbrev decided : ClawSelfConfig
decided = record owned {
  phase = applied;
  message = "configuration applied successfully";
  applied_at = some 7;
}

abbrev first_calls : List (Call String)
first_calls = update_self_config owned ∷ write_claw (apply_changes owned claw) ∷ []

runs :
    (reconcile cluster).0 ≡ first_calls ++ (write_status decided ∷ event "SelfConfigApplied" ∷ [])
unfolding reconcile reconcile_found reconcile_phase with_claw configure validate validate_actions
    first_error is_allowed apply mark
runs = refl

abbrev later : Cluster String
later = record cluster { self_config = found decided; now = 7 + self_config_ttl }

written_once_example : All (OnlyExpires later.now decided) (reconcile later).0
written_once_example =
    written_once cluster later decided first_calls (event "SelfConfigApplied" ∷ []) runs refl
