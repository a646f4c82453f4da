-- ===== src/Controller/Channels/Types.antt =====
-- Channels: api/v1alpha1/channel_types.go, the modes and references of
-- api/v1alpha1/common_types.go, and the containers that are made of them.
use k8s4claw.Base.{ℕ, String, Bool, Option, List, Dict, ◌≡◌, true}
use k8s4claw.Controller.AutoUpdate.Status.{Condition}
use k8s4claw.Controller.AutoUpdate.Cluster.{Found}
use k8s4claw.Controller.Intent.Types.{ResourceRequirements}

abbrev pub ChannelMode : Type 0
ChannelMode = String

abbrev pub channel_mode_bidirectional : ChannelMode
channel_mode_bidirectional = "bidirectional"

abbrev pub ChannelType : Type 0
ChannelType = String

abbrev pub channel_type_custom : ChannelType
channel_type_custom = "custom"

pub record ChannelRef : Type 0 where
  pub name : String
  pub mode : ChannelMode

-- The objects of Kubernetes that are passed on as they are, with the JSON text of a
-- configuration, if it can be written.
pub record Kinds : Type 1 where
  pub Quantity : Type 0
  pub Json : Type 0
  pub Port : Type 0
  pub Probe : Type 0
  pub must_parse : String → Quantity
  pub marshal : Json → Option String

module _ (k : Kinds) where
  open k use {Quantity, Json, Port, Probe}

  pub record SidecarSpec : Type 0 where
    pub image : String
    pub resources : Option (ResourceRequirements Quantity)
    pub ports : List Port
    pub env : Dict String
    pub liveness_probe : Option Probe
    pub readiness_probe : Option Probe

  -- `secret_ref` is the one of the credentials, if there are any.
  pub record ClawChannelSpec : Type 0 where
    pub type : ChannelType
    pub mode : ChannelMode
    pub secret_ref : Option String
    pub config : Option Json
    pub resources : Option (ResourceRequirements Quantity)
    pub sidecar : Option SidecarSpec

  -- A container, without the security context, which is the same for all, and the mount of the
  -- socket of the bus, which each has.
  pub record SidecarContainer : Type 0 where
    pub name : String
    pub image : String
    pub env : Dict String
    pub env_from : Option String
    pub resources : ResourceRequirements Quantity
    pub always_restarts : Bool
    pub ports : List Port
    pub liveness_probe : Option Probe
    pub readiness_probe : Option Probe

  pub record PodSpec : Type 0 where
    pub init_containers : List SidecarContainer
    pub containers : List SidecarContainer

-- `ClawChannel` as its own reconciler sees it.
pub record ClawChannel : Type 0 where
  pub name : String
  pub is_deleting : Bool
  pub generation : ℕ
  pub finalizers : List String
  pub conditions : List Condition
  pub observed_generation : ℕ
  pub reference_count : ℕ
  pub referencing_claws : List String

-- The library's functions on finalizers and conditions, and the text of a message on the claws.
pub record Helpers : Type 0 where
  pub contains_finalizer : String → List String → Bool
  pub add_finalizer : String → List String → List String
  pub remove_finalizer : String → List String → List String
  pub set_status_condition : Condition → List Condition → List Condition
  pub in_use_message : List String → String
  pub contains-add :
      (f : String) (fs : List String) → contains_finalizer f (add_finalizer f fs) ≡ true

-- The answers of the cluster in one reconciliation.
pub record Cluster : Type 0 where
  pub channel : Found ClawChannel
  -- The names of the claws that refer to the channel, sorted, unless listing fails.
  pub referencing : Option (List String)
  pub patch : Bool
  pub update_status : Bool

pub data Call : Type 0 where
  patch_channel : ClawChannel → Call
  update_channel_status : ClawChannel → Call
