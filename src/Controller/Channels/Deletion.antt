-- ===== src/Controller/Channels/Deletion.antt =====
-- When a channel may go (internal/controller/channel_controller.go).
use k8s4claw.Base.{
  ◌≡◌, refl, ap, String, Bool, true, false, ◌⊎◌, inl, inr, Option, none, some, List, [], ◌∷◌,
  length, All, if◌then◌else◌, ltb, arith, Bool-cases,
}
use k8s4claw.Controller.AutoUpdate.Cluster.{Found, found}
use k8s4claw.Controller.Channels.Types.{
  ClawChannel, Helpers, Cluster, Call, patch_channel, update_channel_status,
}
use k8s4claw.Controller.Channels.{
  claw_channel_finalizer, handle_channel_deletion, update_channel_status_of, reconcile_live,
  reconcile_channel, reconcile_found, reconcile,
}

no_claws : (claws : List String) → ltb 0 (length claws) ≡ false → claws ≡ []
no_claws [] q = refl
no_claws (c ∷ cs) q = absurd (ground (arith, q))

module _ (h : Helpers) where
  open h use {contains_finalizer, add_finalizer, remove_finalizer, contains-add}

  -- A patch keeps the finalizer, or the channel is being deleted and no claw refers to it. A status
  -- has the claws that refer to the channel, and their number.
  abbrev pub Guards : ClawChannel → Option (List String) → Call → Type 0
  Guards channel referencing (patch_channel c) =
      (contains_finalizer claw_channel_finalizer c.finalizers ≡ true)
      ⊎ ((channel.is_deleting ≡ true) × (referencing ≡ some []))
  Guards channel referencing (update_channel_status c) =
      (referencing ≡ some c.referencing_claws) × (c.reference_count ≡ length c.referencing_claws)

  deletion-Guards :
      (w : Cluster) (channel : ClawChannel) (claws : List String)
      → channel.is_deleting ≡ true
      → All (Guards channel (some claws)) (handle_channel_deletion h w channel claws).0
  unfolding handle_channel_deletion
  deletion-Guards w channel claws gone =
      elim (Bool-cases (contains_finalizer claw_channel_finalizer channel.finalizers)) [
        | inr free ↦ rw (free) tt
        | inl held ↦ elim (Bool-cases (ltb 0 (length claws))) [
          | inl used ↦ rw (held, used) ((refl, refl), tt)
          | inr unused ↦ rw (held, unused) (inr (gone, ap some (no_claws claws unused)), tt)
        ]
      ]

  status-Guards :
      (w : Cluster) (channel fixed : ClawChannel) (claws : List String)
      → All (Guards channel (some claws)) (update_channel_status_of h w fixed claws).0
  unfolding update_channel_status_of
  status-Guards w channel fixed claws = ((refl, refl), tt)

  live-Guards :
      (w : Cluster) (channel : ClawChannel) (claws : List String)
      → All (Guards channel (some claws)) (reconcile_live h w channel claws).0
  unfolding reconcile_live update_channel_status_of
  live-Guards w channel claws =
      elim (Bool-cases (contains_finalizer claw_channel_finalizer channel.finalizers)) [
        | inl held ↦ rw (held) ((refl, refl), tt)
        | inr free ↦ elim (Bool-cases w.patch) [
          | inl ok ↦ rw (free, ok) (inl (contains-add _ _), ((refl, refl), tt))
          | inr bad ↦ rw (free, bad) (inl (contains-add _ _), tt)
        ]
      ]

  flag-Guards :
      (w : Cluster) (channel : ClawChannel) (claws : List String) (b : Bool)
      → channel.is_deleting ≡ b
      → All
          (Guards channel (some claws))
          (if b
            then handle_channel_deletion h w channel claws
            else reconcile_live h w channel claws).0
  flag-Guards w channel claws true gone = deletion-Guards w channel claws gone
  flag-Guards w channel claws false stays = live-Guards w channel claws

  claws-Guards :
      (w : Cluster) (channel : ClawChannel) (claws : Option (List String))
      → All (Guards channel claws) (reconcile_channel h w channel claws).0
  unfolding reconcile_channel
  claws-Guards w channel none = tt
  claws-Guards w channel (some claws) = flag-Guards w channel claws channel.is_deleting refl

  found-Guards :
      (w : Cluster) (channel : ClawChannel) (got : Found ClawChannel)
      → got ≡ found channel
      → All (Guards channel w.referencing) (reconcile_found h w got).0
  unfolding reconcile_found
  found-Guards w channel got q = rw (q) (claws-Guards w channel w.referencing)

  -- Whatever the cluster answers, a reconciliation of a channel that was found takes its finalizer
  -- away only if the channel is being deleted and the list of the claws that refer to it could be
  -- read and is empty; every other patch leaves the channel with the finalizer. Each status that is
  -- written has the claws that were read, and their number.
  pub reconcile_channel-Guards :
      (w : Cluster) (channel : ClawChannel)
      → w.channel ≡ found channel
      → All (Guards channel w.referencing) (reconcile h w).0
  unfolding reconcile
  reconcile_channel-Guards w channel q = found-Guards w channel w.channel q
