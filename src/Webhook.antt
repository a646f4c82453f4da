-- ===== src/Webhook.antt =====
-- The admission webhook: internal/webhook/claw_validator.go and internal/webhook/claw_defaulter.go.
-- A claw is accepted if the list of errors is empty.
pub mod Types
pub mod Runtimes
pub mod Empty
pub mod AutoUpdate
pub mod Updates
mod Tests
use k8s4claw.Base.{
  ℕ, ◌*◌, String, Bool, true, false, not, ◌&&◌, ◌||◌, Option, none, some, List, [], ◌∷◌, ◌++◌, ℤ,
  pos, leb_int, if◌then◌else◌, str_eq, is_some,
}
use k8s4claw.Rules.Types.{minute}
use k8s4claw.Registry.Resolver.{Semver}
use k8s4claw.Controller.AutoUpdate.Status.{AutoUpdateSpec}
use k8s4claw.Controller.AutoUpdate.Cluster.{Platform}
use k8s4claw.Webhook.Types.{
  ClawSpec, CredentialSpec, VolumeSpec, CacheSpec, PersistenceSpec, FieldError, invalid, forbidden,
  not_supported, Quantities, reclaim_retain,
}
use k8s4claw.Webhook.Runtimes.{error_if, RuntimeValidator, Registry, get}

unfoldable pub validate_runtime_immutability : ClawSpec → ClawSpec → List FieldError
validate_runtime_immutability old new =
    error_if (not (str_eq old.runtime new.runtime))
      (record { kind = forbidden; path = "spec.runtime" })

unfoldable pub validate_credential_exclusivity : ClawSpec → List FieldError
validate_credential_exclusivity spec = elim spec.credentials [
  | none ↦ []
  | some c ↦
      error_if (c.has_secret_ref && c.has_external_secret)
        (record { kind = invalid; path = "spec.credentials" })
]

unfoldable pub default_spec : ClawSpec → ClawSpec
default_spec spec = elim spec.persistence [
  | none ↦ spec
  | some p ↦
      if str_eq p.reclaim_policy ""
      then (record spec { persistence = some (record p { reclaim_policy = reclaim_retain }) })
      else spec
]

-- The text, if there is one, has to read.
abbrev pub unread : Bool → String → String → List FieldError
unread reads text path =
    error_if (not (str_eq text "") && not reads) (record { kind = invalid; path = path })

module _ (q : Quantities) where
  open q use {parse_quantity}

  unfoldable pub validate_volume_size : String → VolumeSpec → List FieldError
  validate_volume_size path vol =
      error_if (not (is_some (parse_quantity vol.size))) (record { kind = invalid; path = path })
      ++ unread (is_some (parse_quantity vol.max_size)) vol.max_size path

  -- A volume that is there and enabled.
  unfoldable pub validate_volume : String → Option VolumeSpec → List FieldError
  validate_volume path none = []
  validate_volume path (some vol) = if vol.enabled then validate_volume_size path vol else []

  unfoldable pub validate_cache : Option CacheSpec → List FieldError
  validate_cache none = []
  validate_cache (some c) =
      error_if (c.enabled && not (is_some (parse_quantity c.size)))
        (record { kind = invalid; path = "spec.persistence.cache.size" })

  unfoldable pub validate_pvc_sizes : ClawSpec → List FieldError
  validate_pvc_sizes spec = elim spec.persistence [
    | none ↦ []
    | some p ↦
        validate_volume "spec.persistence.session" p.session
        ++ (validate_volume "spec.persistence.output" p.output
            ++ (validate_volume "spec.persistence.workspace" p.workspace ++ validate_cache p.cache))
  ]

-- Between 2 and 30 minutes.
unfoldable pub is_timeout : Option ℤ → Bool
is_timeout none = false
is_timeout (some d) = leb_int (pos (2 * minute)) d && leb_int d (pos (30 * minute))

module _ (sv : Semver) (pl : Platform) where
  unfoldable pub validate_auto_update_spec : AutoUpdateSpec → List FieldError
  validate_auto_update_spec au =
      unread (is_some (sv.new_constraint au.version_constraint)) au.version_constraint
        "spec.autoUpdate.versionConstraint"
      ++ (unread (is_some (pl.parse_cron au.schedule)) au.schedule "spec.autoUpdate.schedule"
          ++ (unread (is_timeout (pl.parse_duration au.health_timeout)) au.health_timeout
                "spec.autoUpdate.healthTimeout"
              ++ error_if (not (leb_int (pos 0) au.max_rollbacks))
                  (record { kind = invalid; path = "spec.autoUpdate.maxRollbacks" })))

  -- Only a section that is enabled is checked.
  unfoldable pub validate_auto_update : ClawSpec → List FieldError
  validate_auto_update spec = elim spec.auto_update [
    | none ↦ []
    | some au ↦ if au.enabled then validate_auto_update_spec au else []
  ]

module _ (q : Quantities) (sv : Semver) (pl : Platform) (registry : Registry q) where
  unfoldable pub validate_runtime : ClawSpec → List FieldError
  validate_runtime spec = elim (get q spec.runtime registry) [
    | none ↦ record { kind = not_supported; path = "spec.runtime" } ∷ []
    | some adapter ↦ adapter.validate spec
  ]

  unfoldable pub validate_runtime_update : ClawSpec → ClawSpec → List FieldError
  validate_runtime_update old new = elim (get q new.runtime registry) [
    | none ↦ []
    | some adapter ↦ adapter.validate_update old new
  ]

  unfoldable pub validate_create : ClawSpec → List FieldError
  validate_create spec =
      validate_credential_exclusivity spec
      ++ (validate_pvc_sizes q spec ++ (validate_auto_update sv pl spec ++ validate_runtime spec))

  unfoldable pub validate_update : ClawSpec → ClawSpec → List FieldError
  validate_update old new =
      validate_runtime_immutability old new
      ++ (validate_credential_exclusivity new
          ++ (validate_pvc_sizes q new
              ++ (validate_auto_update sv pl new ++ validate_runtime_update old new)))

  unfoldable pub validate_delete : ClawSpec → List FieldError
  validate_delete spec = []
