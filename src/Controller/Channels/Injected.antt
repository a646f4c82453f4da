-- ===== src/Controller/Channels/Injected.antt =====
-- The sidecars that a claw's channels give (internal/controller/channel_sidecar.go).
use k8s4claw.Base.{◌≡◌, ◌∙◌, String, Bool, true, false, List, [], ◌∷◌, ◌++◌}
use k8s4claw.Controller.AutoUpdate.Cluster.{Found, found, not_found, get_failed}
use k8s4claw.Controller.Channels.Types.{
  ChannelRef, Kinds, ClawChannelSpec, SidecarContainer, PodSpec,
}
use k8s4claw.Controller.Channels.Sidecar.{Supports, IsSidecar}
use k8s4claw.Controller.Channels.{Injection}

module _ (k : Kinds) where
  -- A pod with containers behind those of the list that sidecars go to.
  abbrev pub extended : Bool → PodSpec k → List (SidecarContainer k) → PodSpec k
  extended true pod cs = record pod { init_containers = pod.init_containers ++ cs }
  extended false pod cs = record pod { containers = pod.containers ++ cs }

module _ (k : Kinds) (fetch : String → Found (ClawChannelSpec k)) (native : Bool) where
  -- The containers of references, in their order, and the names of those that have none.
  pub data Sidecars : List ChannelRef → List (SidecarContainer k) → List String → Type 0 where
    ends : Sidecars [] [] []
    takes :
        (ref : ChannelRef) (refs : List ChannelRef) (spec : ClawChannelSpec k)
        (c : SidecarContainer k) (cs : List (SidecarContainer k)) (out : List String)
        → fetch ref.name ≡ found spec
        → Supports k ref spec
        → IsSidecar k native ref spec c
        → Sidecars refs cs out
        → Sidecars (ref ∷ refs) (c ∷ cs) out
    misses :
        (ref : ChannelRef) (refs : List ChannelRef) (cs : List (SidecarContainer k))
        (out : List String)
        → fetch ref.name ≡ not_found
        → Sidecars refs cs out
        → Sidecars (ref ∷ refs) cs (ref.name ∷ out)
    refuses :
        (ref : ChannelRef) (refs : List ChannelRef) (spec : ClawChannelSpec k)
        (cs : List (SidecarContainer k)) (out : List String)
        → fetch ref.name ≡ found spec
        → ¬ Supports k ref spec
        → Sidecars refs cs out
        → Sidecars (ref ∷ refs) cs (ref.name ∷ out)

  abbrev pub IsFetched : ChannelRef → Type 0
  IsFetched ref = ¬ (fetch ref.name ≡ get_failed)

  -- The pod and the skipped names that an injection gives.
  abbrev pub Injects : List ChannelRef → PodSpec k → List String → Injection k → Type 0
  Injects refs pod skipped r =
      (cs : List (SidecarContainer k)) × (out : List String) × Sidecars refs cs out
      × (r ≡ record { pod = extended k native pod cs; skipped = skipped ++ out; is_error = false })

  Injects-by :
      (refs : List ChannelRef) (pod : PodSpec k) (skipped : List String) (r r' : Injection k)
      → r ≡ r'
      → Injects refs pod skipped r'
      → Injects refs pod skipped r
  Injects-by refs pod skipped r r' same (cs, out, each, q) = (cs, out, each, same ∙ q)
