-- ===== src/Controller/Channels.antt =====
-- Channels of claws: internal/controller/channel_controller.go and the sidecar containers of
-- internal/controller/channel_sidecar.go.
pub mod Types
pub mod Deletion
pub mod Sidecar
pub mod Injected
mod Tests
use k8s4claw.Base.{
  ℕ, ◌*◌, String, ◌<>◌, Bool, true, false, not, ◌||◌, Option, none, some, is_some, List, [], ◌∷◌,
  ◌++◌, length, if◌then◌else◌, ltb, str_eq, Dict,
}
use k8s4claw.Controller.AutoUpdate.Status.{Condition}
use k8s4claw.Controller.AutoUpdate.Cluster.{
  Found, found, not_found, get_failed, Result, done, requeue_after, failed,
}
use k8s4claw.Controller.Intent.Types.{ResourceRequirements}
use k8s4claw.Controller.Channels.Types.{
  ChannelMode, channel_mode_bidirectional, ChannelType, channel_type_custom, ChannelRef, Kinds,
  SidecarSpec, ClawChannelSpec, SidecarContainer, PodSpec, ClawChannel, Helpers, Cluster, Call,
  patch_channel, update_channel_status,
}

unfoldable pub is_mode_compatible : ChannelMode → ChannelMode → Bool
is_mode_compatible requested capability =
    str_eq capability channel_mode_bidirectional || str_eq capability requested

unfoldable pub builtin_channel_image : ChannelType → String
builtin_channel_image t = "ghcr.io/prismer-ai/claw-channel-" <> (t <> ":latest")

module _ (k : Kinds) where
  open k use {Quantity, must_parse, marshal}

  abbrev pub channel_default_resources : ResourceRequirements Quantity
  channel_default_resources = record {
    limits = ("cpu", must_parse "200m") ∷ ("memory", must_parse "128Mi") ∷ [];
    requests = ("cpu", must_parse "50m") ∷ ("memory", must_parse "32Mi") ∷ [];
  }

  -- The section on the sidecar, which counts for a custom channel only.
  unfoldable pub custom_sidecar : ClawChannelSpec k → Option (SidecarSpec k)
  custom_sidecar spec = if str_eq spec.type channel_type_custom then spec.sidecar else none

  unfoldable pub config_env : ClawChannelSpec k → Dict String
  config_env spec = elim spec.config [
    | none ↦ []
    | some c ↦ elim (marshal c) [ none ↦ [] | some raw ↦ ("CHANNEL_CONFIG", raw) ∷ [] ]
  ]

  unfoldable pub base_resources : ClawChannelSpec k → ResourceRequirements Quantity
  base_resources spec = elim spec.resources [ none ↦ channel_default_resources | some r ↦ r ]

  abbrev base_env : ClawChannelSpec k → ChannelRef → Dict String
  base_env spec ref =
      ("CHANNEL_NAME", ref.name)
      ∷ ("CHANNEL_TYPE", spec.type)
      ∷ ("CHANNEL_MODE", ref.mode)
      ∷ config_env spec

  unfoldable pub build_channel_container :
      ClawChannelSpec k → ChannelRef → Bool → SidecarContainer k
  build_channel_container spec ref native_sidecar = elim (custom_sidecar spec) [
    | none ↦ record {
      name = "channel-" <> ref.name;
      image = builtin_channel_image spec.type;
      env = base_env spec ref;
      env_from = spec.secret_ref;
      resources = base_resources spec;
      always_restarts = native_sidecar;
      ports = [];
      liveness_probe = none;
      readiness_probe = none;
    }
    | some s ↦ record {
      name = "channel-" <> ref.name;
      image = s.image;
      env = base_env spec ref ++ s.env;
      env_from = spec.secret_ref;
      resources = elim s.resources [ none ↦ base_resources spec | some r ↦ r ];
      always_restarts = native_sidecar;
      ports = s.ports;
      liveness_probe = s.liveness_probe;
      readiness_probe = s.readiness_probe;
    }
  ]

  -- The container goes behind the others of its list.
  unfoldable pub add_container : Bool → SidecarContainer k → PodSpec k → PodSpec k
  add_container native c pod =
      if native
      then (record pod { init_containers = pod.init_containers ++ (c ∷ []) })
      else (record pod { containers = pod.containers ++ (c ∷ []) })

  pub record Injection : Type 0 where
    pub pod : PodSpec k
    pub skipped : List String
    pub is_error : Bool

  -- The loop over the references, with what has been made so far.
  unfoldable pub inject_channel_sidecars :
      (String → Found (ClawChannelSpec k))
      → Bool
      → List ChannelRef
      → PodSpec k
      → List String
      → Injection
  inject_channel_sidecars fetch native [] pod skipped = record {
    pod = pod;
    skipped = skipped;
    is_error = false;
  }
  inject_channel_sidecars fetch native (ref ∷ refs) pod skipped = elim (fetch ref.name) [
    | not_found ↦ inject_channel_sidecars fetch native refs pod (skipped ++ (ref.name ∷ []))
    | get_failed ↦ record { pod = pod; skipped = skipped; is_error = true }
    | found spec ↦ elim (is_mode_compatible ref.mode spec.mode) [
      | false ↦ inject_channel_sidecars fetch native refs pod (skipped ++ (ref.name ∷ []))
      | true ↦
          inject_channel_sidecars fetch native refs
            (add_container native (build_channel_container spec ref native) pod) skipped
    ]
  ]

abbrev pub claw_channel_finalizer : String
claw_channel_finalizer = "claw.prismer.ai/channel-cleanup"

module _ (h : Helpers) where
  open h use {
    contains_finalizer, add_finalizer, remove_finalizer, set_status_condition, in_use_message,
  }

  abbrev in_use : ClawChannel → List String → Condition
  in_use channel claws = record {
    kind = "InUse";
    status = true;
    reason = "ReferencesExist";
    message = in_use_message claws;
    observed_generation = channel.generation;
  }

  abbrev not_in_use : ClawChannel → Condition
  not_in_use channel = record {
    kind = "InUse";
    status = false;
    reason = "NoReferences";
    message = "channel is not referenced by any Claw";
    observed_generation = channel.generation;
  }

  unfoldable pub handle_channel_deletion : Cluster → ClawChannel → List String → List Call × Result
  handle_channel_deletion w channel claws =
      if not (contains_finalizer claw_channel_finalizer channel.finalizers)
      then ([], done)
      else (if ltb 0 (length claws)
          then (
            update_channel_status (record channel {
              conditions = set_status_condition (in_use channel claws) channel.conditions;
              reference_count = length claws;
              referencing_claws = claws;
            })
                ∷ [],
            if w.update_status
                then requeue_after (10 * 1000000000)
                else failed "failed to update channel status during deletion",
          )
          else (
            patch_channel (record channel {
              finalizers = remove_finalizer claw_channel_finalizer channel.finalizers;
            })
                ∷ [],
            if w.patch then done else failed "failed to remove finalizer",
          ))

  unfoldable pub update_channel_status_of : Cluster → ClawChannel → List String → List Call × Result
  update_channel_status_of w channel claws =
      let condition = if ltb 0 (length claws) then in_use channel claws else not_in_use channel in
      (
        update_channel_status (record channel {
          reference_count = length claws;
          referencing_claws = claws;
          observed_generation = channel.generation;
          conditions = set_status_condition condition channel.conditions;
        })
            ∷ [],
        if w.update_status then done else failed "failed to update channel status",
      )

  unfoldable pub reconcile_live : Cluster → ClawChannel → List String → List Call × Result
  reconcile_live w channel claws =
      let fixed = record channel {
        finalizers = add_finalizer claw_channel_finalizer channel.finalizers;
      } in
      let status = update_channel_status_of w fixed claws in
      if contains_finalizer claw_channel_finalizer channel.finalizers
      then update_channel_status_of w channel claws
      else (if w.patch
          then (patch_channel fixed ∷ status.0, status.1)
          else (patch_channel fixed ∷ [], failed "failed to add finalizer"))

  unfoldable pub reconcile_channel :
      Cluster → ClawChannel → Option (List String) → List Call × Result
  reconcile_channel w channel none = ([], failed "failed to find referencing Claws")
  reconcile_channel w channel (some claws) =
      if channel.is_deleting
      then handle_channel_deletion w channel claws
      else reconcile_live w channel claws

  unfoldable pub reconcile_found : Cluster → Found ClawChannel → List Call × Result
  reconcile_found w not_found = ([], done)
  reconcile_found w get_failed = ([], failed "failed to get ClawChannel")
  reconcile_found w (found channel) = reconcile_channel w channel w.referencing

  unfoldable pub reconcile : Cluster → List Call × Result
  reconcile w = reconcile_found w w.channel
