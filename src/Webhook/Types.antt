-- ===== src/Webhook/Types.antt =====
-- What admission reads of a claw's spec: api/v1alpha1/claw_types.go and
-- api/v1alpha1/common_types.go. A reference that is only tested for its presence is a flag.
use k8s4claw.Base.{ℕ, String, Bool, Option}
use k8s4claw.Controller.AutoUpdate.Status.{AutoUpdateSpec}

abbrev pub RuntimeType : Type 0
RuntimeType = String

abbrev pub open_claw : RuntimeType
open_claw = "openclaw"

abbrev pub hermes_claw : RuntimeType
hermes_claw = "hermesclaw"

abbrev pub hermes_rs : RuntimeType
hermes_rs = "hermesrs"

abbrev pub k8s_ops : RuntimeType
k8s_ops = "k8sops"

abbrev pub reclaim_retain : String
reclaim_retain = "Retain"

pub record CredentialSpec : Type 0 where
  pub has_secret_ref : Bool
  pub has_external_secret : Bool
  -- The keys that are mapped, by their number.
  pub keys : ℕ

pub record VolumeSpec : Type 0 where
  pub enabled : Bool
  pub storage_class : String
  pub size : String
  pub max_size : String
  pub mount_path : String

pub record CacheSpec : Type 0 where
  pub enabled : Bool
  pub size : String

pub record PersistenceSpec : Type 0 where
  pub reclaim_policy : String
  pub session : Option VolumeSpec
  pub output : Option VolumeSpec
  pub workspace : Option VolumeSpec
  pub cache : Option CacheSpec

pub record ClawSpec : Type 0 where
  pub runtime : RuntimeType
  pub credentials : Option CredentialSpec
  -- The channels by their number.
  pub channels : ℕ
  pub persistence : Option PersistenceSpec
  pub auto_update : Option AutoUpdateSpec
  -- `spec.security.networkPolicy.enabled`, false if a part of the path is missing.
  pub network_policy_enabled : Bool

pub data ErrorType : Type 0 where
  invalid required forbidden not_supported : ErrorType

-- `field.Error`, without the value and the text.
pub record FieldError : Type 0 where
  pub kind : ErrorType
  pub path : String

-- The quantities of the Kubernetes library.
pub record Quantities : Type 1 where
  pub Quantity : Type 0
  pub parse_quantity : String → Option Quantity
  -- `a.Cmp(b) < 0`
  pub is_less : Quantity → Quantity → Bool
