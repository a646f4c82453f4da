-- ===== src/Webhook/Tests.antt =====
-- Concrete admissions.
use k8s4claw.Base.{
  ◌≡◌, refl, ℕ, ◌*◌, String, Bool, true, false, inl, inr, Option, none, some, List, [], ◌∷◌, ℤ, pos,
  leb_int, str_eq, ltb,
}
use k8s4claw.Rules.Types.{minute}
use k8s4claw.Registry.Resolver.Examples.{by_length}
use k8s4claw.Controller.AutoUpdate.Status.{AutoUpdateSpec}
use k8s4claw.Controller.AutoUpdate.Cluster.{Platform}
use k8s4claw.Webhook.Types.{ClawSpec, Quantities, VolumeSpec, open_claw, hermes_claw}
use k8s4claw.Webhook.Runtimes.{
  Registry, register, new_registry, open_claw_adapter, hermes_claw_adapter, get, has_credentials,
  validate_persistence_update, compare_persistence, validate_volume_update, compare_volumes,
  is_shrunk,
}
use k8s4claw.Webhook.{
  validate_create, validate_update, validate_credential_exclusivity, validate_pvc_sizes,
  validate_auto_update, validate_auto_update_spec, validate_runtime, validate_runtime_update,
  validate_runtime_immutability, validate_volume, validate_volume_size, validate_cache, is_timeout,
}
use k8s4claw.Webhook.AutoUpdate.{IsUsable, accepted-IsUsable}
use k8s4claw.Webhook.Updates.{
  created, updated, runtime_kept, without_credentials, credentials_droppable,
}

abbrev read_size : Bool → Bool → Option ℕ
read_size true b = some 1
read_size false true = some 2
read_size false false = none

abbrev quantities : Quantities
quantities = record {
  Quantity = ℕ;
  parse_quantity = λ s. read_size (str_eq s "1Gi") (str_eq s "2Gi");
  is_less = ltb;
}

abbrev platform : Platform
platform = record {
  Schedule = Unit;
  parse_cron = λ s. none;
  next = λ s t. t;
  parse_duration = λ s. some (pos (5 * minute));
  parse_rfc3339 = λ s. none;
  format_rfc3339 = λ t. "";
  set_status_condition = λ cs c. c ∷ cs;
}

abbrev updates : AutoUpdateSpec
updates = record {
  enabled = true;
  version_constraint = "";
  schedule = "";
  health_timeout = "5m";
  max_rollbacks = pos 2;
}

abbrev session : VolumeSpec
session = record {
  enabled = true;
  storage_class = "fast";
  size = "1Gi";
  max_size = "";
  mount_path = "/data";
}

abbrev spec : ClawSpec
spec = record {
  runtime = open_claw;
  credentials = some (record { has_secret_ref = true; has_external_secret = false; keys = 0 });
  channels = 0;
  persistence = some (record {
    reclaim_policy = "";
    session = some session;
    output = none;
    workspace = none;
    cache = none;
  });
  auto_update = some updates;
  network_policy_enabled = true;
}

abbrev registry : Registry quantities
registry =
    register quantities open_claw (open_claw_adapter quantities)
      (register quantities hermes_claw (hermes_claw_adapter quantities) (new_registry quantities))

-- A new size for the session.
abbrev larger : ClawSpec
larger = record spec {
  persistence = some (record {
    reclaim_policy = "";
    session = some (record session { size = "2Gi" });
    output = none;
    workspace = none;
    cache = none;
  });
}

created_accepted : validate_create quantities by_length platform registry spec ≡ []
unfolding validate_create validate_credential_exclusivity validate_pvc_sizes validate_volume
    validate_volume_size validate_cache validate_auto_update validate_auto_update_spec is_timeout
    validate_runtime get register has_credentials k8s4claw.Base.lookup k8s4claw.Base.insert
created_accepted = refl

accepted-IsUsable_example : IsUsable by_length platform updates
accepted-IsUsable_example =
    accepted-IsUsable quantities by_length platform registry spec spec updates refl refl
      (inl created_accepted)

larger_accepted : validate_update quantities by_length platform registry spec larger ≡ []
unfolding validate_update validate_runtime_immutability validate_credential_exclusivity
    validate_pvc_sizes validate_volume validate_volume_size validate_cache validate_auto_update
    validate_auto_update_spec is_timeout validate_runtime_update get register
    validate_persistence_update compare_persistence validate_volume_update compare_volumes is_shrunk
    k8s4claw.Base.lookup k8s4claw.Base.insert
larger_accepted = refl

same_accepted : validate_update quantities by_length platform registry spec spec ≡ []
unfolding validate_update validate_runtime_immutability validate_credential_exclusivity
    validate_pvc_sizes validate_volume validate_volume_size validate_cache validate_auto_update
    validate_auto_update_spec is_timeout validate_runtime_update get register
    validate_persistence_update compare_persistence validate_volume_update compare_volumes is_shrunk
    k8s4claw.Base.lookup k8s4claw.Base.insert
same_accepted = refl

runtime_kept_example : larger.runtime ≡ spec.runtime
runtime_kept_example =
    runtime_kept quantities by_length platform registry spec larger
      (updated spec larger created larger_accepted)

credentials_droppable_example :
    (validate_update quantities by_length platform registry spec (without_credentials spec) ≡ [])
    × (¬ (validate_create quantities by_length platform registry (without_credentials spec) ≡ []))
unfolding get register k8s4claw.Base.lookup k8s4claw.Base.insert
credentials_droppable_example =
    credentials_droppable quantities by_length platform registry spec refl same_accepted
