-- ===== src/Controller/Channels/Sidecar.antt =====
-- The container that a channel gives (internal/controller/channel_sidecar.go).
use k8s4claw.Base.{
  ◌≡◌, ◌≢◌, refl, ◌<>◌, Bool, true, false, inl, inr, Option, none, some, [], Bool-cases,
  Option-cases, ◌⊎◌, arith, lookup, str_eq, eq_iff,
}
use k8s4claw.Controller.Intent.Types.{ResourceRequirements}
use k8s4claw.Controller.Channels.Types.{
  ChannelRef, Kinds, ClawChannelSpec, SidecarContainer, SidecarSpec,
}
use k8s4claw.Controller.Channels.{
  is_mode_compatible, build_channel_container, custom_sidecar, builtin_channel_image,
  base_resources, channel_default_resources,
}

module _ (k : Kinds) where
  -- A channel supports the mode of a reference if it has this mode or works both ways.
  abbrev pub Supports : ChannelRef → ClawChannelSpec k → Type 0
  Supports ref spec = (spec.mode ≡ "bidirectional") ⊎ (spec.mode ≡ ref.mode)

  -- The section that describes the sidecar itself, which only a custom channel has.
  abbrev pub OwnSection : ClawChannelSpec k → Option (SidecarSpec k) → Type 0
  OwnSection spec none = (spec.type ≢ "custom") ⊎ (spec.sidecar ≡ none)
  OwnSection spec (some s) = (spec.type ≡ "custom") × (spec.sidecar ≡ some s)

  -- The sidecar's own resources, before the channel's, before the default.
  abbrev pub wanted :
      Option (ResourceRequirements k.Quantity)
      → Option (ResourceRequirements k.Quantity)
      → ResourceRequirements k.Quantity
  wanted (some own) r = own
  wanted none (some r) = r
  wanted none none = channel_default_resources k

  -- The image, ports, probes and resources of a container.
  abbrev pub FromSection : Option (SidecarSpec k) → ClawChannelSpec k → SidecarContainer k → Type 0
  FromSection none spec c =
      (c.image ≡ "ghcr.io/prismer-ai/claw-channel-" <> (spec.type <> ":latest"))
      × (c.ports ≡ [])
      × (c.liveness_probe ≡ none)
      × (c.readiness_probe ≡ none)
      × (c.resources ≡ wanted none spec.resources)
  FromSection (some s) spec c =
      (c.image ≡ s.image)
      × (c.ports ≡ s.ports)
      × (c.liveness_probe ≡ s.liveness_probe)
      × (c.readiness_probe ≡ s.readiness_probe)
      × (c.resources ≡ wanted s.resources spec.resources)

  -- The container of a reference to a channel.
  pub record IsSidecar (native : Bool) (ref : ChannelRef) (spec : ClawChannelSpec k)
      (c : SidecarContainer k) : Type 0 where
    pub name : c.name ≡ "channel-" <> ref.name
    pub always_restarts : c.always_restarts ≡ native
    pub env_from : c.env_from ≡ spec.secret_ref
    pub channel_name : lookup "CHANNEL_NAME" c.env ≡ some ref.name
    pub channel_type : lookup "CHANNEL_TYPE" c.env ≡ some spec.type
    pub channel_mode : lookup "CHANNEL_MODE" c.env ≡ some ref.mode
    pub own : Option (SidecarSpec k)
    pub has_own : OwnSection spec own
    pub from_own : FromSection own spec c

  own_wanted :
      (spec : ClawChannelSpec k) (own : Option (ResourceRequirements k.Quantity))
      → elim own [ none ↦ base_resources k spec | some r ↦ r ] ≡ wanted own spec.resources
  unfolding base_resources
  own_wanted spec none = refl
  own_wanted spec (some r) = refl

  by_section :
      (native : Bool) (spec : ClawChannelSpec k) (ref : ChannelRef) (own : Option (SidecarSpec k))
      → custom_sidecar k spec ≡ own
      → OwnSection spec own
      → IsSidecar native ref spec (build_channel_container k spec ref native)
  unfolding build_channel_container builtin_channel_image base_resources lookup
  by_section native spec ref none q has =
      rw (q, build_channel_container)
        (record {
          name = refl;
          always_restarts = refl;
          env_from = refl;
          channel_name = refl;
          channel_type = refl;
          channel_mode = refl;
          own = none;
          has_own = has;
          from_own = (refl, refl, refl, refl, refl);
        })
  by_section native spec ref (some s) q has =
      rw (q, build_channel_container)
        (record {
          name = refl;
          always_restarts = refl;
          env_from = refl;
          channel_name = refl;
          channel_type = refl;
          channel_mode = refl;
          own = some s;
          has_own = has;
          from_own = (refl, refl, refl, refl, own_wanted spec s.resources);
        })

  pub build_channel_container-IsSidecar :
      (native : Bool) (spec : ClawChannelSpec k) (ref : ChannelRef)
      → IsSidecar native ref spec (build_channel_container k spec ref native)
  unfolding custom_sidecar
  build_channel_container-IsSidecar native spec ref =
      elim (Bool-cases (str_eq spec.type "custom")) [
        | inr builtin ↦
            by_section native spec ref none (rw (builtin, custom_sidecar) refl)
              (inl (λ q. ground (arith, builtin, (eq_iff spec.type "custom").1 q)))
        | inl custom ↦ elim (Option-cases spec.sidecar) [
          | inl bare ↦ by_section native spec ref none (rw (custom, custom_sidecar) bare) (inr bare)
          | inr (s, there) ↦
              by_section native spec ref (some s) (rw (custom, custom_sidecar) there)
                ((eq_iff spec.type "custom").0 custom, there)
        ]
      ]

  pub Supports-yes :
      (ref : ChannelRef) (spec : ClawChannelSpec k)
      → is_mode_compatible ref.mode spec.mode ≡ true
      → Supports ref spec
  unfolding is_mode_compatible
  Supports-yes ref spec h = elim (Bool-cases (str_eq spec.mode "bidirectional")) [
    | inl both ↦ inl ((eq_iff spec.mode "bidirectional").0 both)
    | inr one ↦ inr ((eq_iff spec.mode ref.mode).0 (ground (arith, h, one)))
  ]

  pub Supports-no :
      (ref : ChannelRef) (spec : ClawChannelSpec k)
      → is_mode_compatible ref.mode spec.mode ≡ false
      → ¬ Supports ref spec
  unfolding is_mode_compatible
  Supports-no ref spec h (inl both) = ground (arith, h, (eq_iff spec.mode "bidirectional").1 both)
  Supports-no ref spec h (inr same) = ground (arith, h, (eq_iff spec.mode ref.mode).1 same)
