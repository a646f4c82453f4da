-- ===== src/Webhook/Runtimes.antt =====
-- The validation by the runtimes' adapters: internal/runtime/openclaw.go,
-- internal/runtime/hermesclaw.go, internal/runtime/hermesrs.go, internal/runtime/k8sops.go, and the
-- registry of internal/runtime/adapter.go.
use k8s4claw.Base.{
  String, ◌<>◌, Bool, false, not, ◌&&◌, ◌||◌, Option, none, some, List, [], ◌∷◌, ◌++◌, ltb,
  if◌then◌else◌, str_eq, Dict, lookup, insert,
}
use k8s4claw.Webhook.Types.{
  RuntimeType, VolumeSpec, PersistenceSpec, ClawSpec, invalid, required, forbidden, FieldError,
  Quantities,
}

-- An error if the test holds.
abbrev pub error_if : Bool → FieldError → List FieldError
error_if b e = if b then e ∷ [] else []

unfoldable pub has_credentials : ClawSpec → Bool
has_credentials spec = elim spec.credentials [
  | none ↦ false
  | some c ↦ c.has_secret_ref || (c.has_external_secret || ltb 0 c.keys)
]

abbrev pub no_credentials : ClawSpec → List FieldError
no_credentials spec =
    error_if (not (has_credentials spec)) (record { kind = required; path = "spec.credentials" })

-- A volume that is enabled has to be mounted at the path.
unfoldable pub check_mount : String → String → Option VolumeSpec → List FieldError
check_mount path mount none = []
check_mount path mount (some v) =
    error_if (v.enabled && not (str_eq v.mount_path mount)) (record { kind = invalid; path = path })

unfoldable pub check_mounts : String → String → ClawSpec → List FieldError
check_mounts home skills spec = elim spec.persistence [
  | none ↦ []
  | some p ↦
      check_mount "spec.persistence.session.mountPath" home p.session
      ++ check_mount "spec.persistence.workspace.mountPath" skills p.workspace
]

module _ (q : Quantities) where
  open q use {Quantity, parse_quantity, is_less}

  -- Both sizes read, and the new one is less.
  unfoldable pub is_shrunk : Option Quantity → Option Quantity → Bool
  is_shrunk none new = false
  is_shrunk (some old) none = false
  is_shrunk (some old) (some new) = is_less new old

  -- Two volumes that are both enabled.
  unfoldable pub compare_volumes : String → VolumeSpec → VolumeSpec → List FieldError
  compare_volumes path old new =
      error_if
        (not (str_eq old.storage_class "") && not (str_eq new.storage_class old.storage_class))
        (record { kind = forbidden; path = path <> ".storageClass" })
      ++ error_if (is_shrunk (parse_quantity old.size) (parse_quantity new.size))
          (record { kind = forbidden; path = path <> ".size" })

  unfoldable pub validate_volume_update :
      String → Option VolumeSpec → Option VolumeSpec → List FieldError
  validate_volume_update path none new = []
  validate_volume_update path (some old) none = []
  validate_volume_update path (some old) (some new) =
      if not old.enabled || not new.enabled then [] else compare_volumes path old new

  unfoldable pub compare_persistence :
      Option PersistenceSpec → Option PersistenceSpec → List FieldError
  compare_persistence none new = []
  compare_persistence (some old) none = []
  compare_persistence (some old) (some new) =
      validate_volume_update "spec.persistence.session" old.session new.session
      ++ (validate_volume_update "spec.persistence.output" old.output new.output
          ++ validate_volume_update "spec.persistence.workspace" old.workspace new.workspace)

  unfoldable pub validate_persistence_update : ClawSpec → ClawSpec → List FieldError
  validate_persistence_update old new = compare_persistence old.persistence new.persistence

  -- `RuntimeValidator`: what an adapter checks on creation and on an update.
  pub record RuntimeValidator : Type 0 where
    pub validate : ClawSpec → List FieldError
    pub validate_update : ClawSpec → ClawSpec → List FieldError

  abbrev pub open_claw_adapter : RuntimeValidator
  open_claw_adapter = record {
    validate = no_credentials;
    validate_update = validate_persistence_update;
  }

  abbrev pub hermes_claw_adapter : RuntimeValidator
  hermes_claw_adapter = record {
    validate = λ spec.
        no_credentials spec
        ++ (error_if (ltb 0 spec.channels) (record { kind = forbidden; path = "spec.channels" })
            ++ check_mounts "/opt/data" "/opt/data/skills" spec);
    validate_update = validate_persistence_update;
  }

  abbrev pub hermes_rs_adapter : RuntimeValidator
  hermes_rs_adapter = record {
    validate = λ spec. no_credentials spec ++ check_mounts "/data" "/data/skills" spec;
    validate_update = validate_persistence_update;
  }

  abbrev no_network_policy : ClawSpec → List FieldError
  no_network_policy spec =
      error_if (not spec.network_policy_enabled)
        (record { kind = required; path = "spec.security.networkPolicy.enabled" })

  abbrev pub k8s_ops_adapter : RuntimeValidator
  k8s_ops_adapter = record {
    validate = no_network_policy;
    validate_update = λ old new. no_network_policy new;
  }

  -- `Registry`
  abbrev pub Registry : Type 0
  Registry = Dict RuntimeValidator

  abbrev pub new_registry : Registry
  new_registry = []

  unfoldable pub register : RuntimeType → RuntimeValidator → Registry → Registry
  register rt adapter r = insert rt adapter r

  unfoldable pub get : RuntimeType → Registry → Option RuntimeValidator
  get rt r = lookup rt r
