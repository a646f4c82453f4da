-- ===== src/Controller/Intent/Resources.antt =====
-- The memory and CPU that an intent sets (internal/controller/claw_ops_intent_consumer.go).
use k8s4claw.Base.{
  ◌≡◌, inl, inr, refl, String, false, some, arith, Bool-cases, Option-cases, if◌then◌else◌, str_eq,
  eq_refl, Dict, lookup, lookup-insert,
}
use k8s4claw.Controller.Intent.{bump, bump_request}
use k8s4claw.Controller.Intent.Types.{Codec, Claw, resources_of}

module _ (k : Codec) where
  open k use {Quantity, is_less}

  bump_request_lem :
      (name : String) (q : Quantity) (requests : Dict Quantity)
      → is_less q q ≡ false
      → (r : Quantity) × (lookup name (bump_request k name q requests) ≡ some r)
        × (is_less q r ≡ false)
  unfolding bump_request
  bump_request_lem name q requests strict = elim (Option-cases (lookup name requests)) [
    | inl missing ↦
        (q, rw (missing, bump_request, lookup-insert name name q requests) (self name), strict)
    | inr (r, there) ↦ elim (Bool-cases (is_less q r)) [
      | inl above ↦ (
        q,
        rw (there, above, bump_request, lookup-insert name name q requests) (self name),
        strict,
      )
      | inr below ↦ (r, rw (there, below, bump_request) there, below)
    ]
  ]
    where
      self : (n : String) → (if str_eq n n then some q else lookup n requests) ≡ some q
      self n = rw (eq_refl n) refl

  bump_request_other :
      (name other : String) (q : Quantity) (requests : Dict Quantity)
      → str_eq name other ≡ false
      → lookup other (bump_request k name q requests) ≡ lookup other requests
  unfolding bump_request
  bump_request_other name other q requests apart =
      ground (arith, lookup-insert name other q requests)

  -- A bump sets the limit of its resource to the quantity and leaves a request that is not above
  -- the limit, if a quantity is not below itself; the limits and requests of another resource, the
  -- replicas and the annotations stay.
  bump_bounded :
      (name other : String) (q : Quantity) (claw : Claw Quantity)
      → is_less q q ≡ false
      → str_eq name other ≡ false
      → (lookup name (resources_of (bump k name q claw)).limits ≡ some q)
        × ((r : Quantity) × (lookup name (resources_of (bump k name q claw)).requests ≡ some r)
            × (is_less q r ≡ false))
        × (lookup other (resources_of (bump k name q claw)).limits
            ≡ lookup other (resources_of claw).limits)
        × (lookup other (resources_of (bump k name q claw)).requests
            ≡ lookup other (resources_of claw).requests)
        × ((bump k name q claw).replicas ≡ claw.replicas)
        × ((bump k name q claw).annotations ≡ claw.annotations)
  unfolding bump
  bump_bounded name other q claw strict apart = (
    rw (lookup-insert name name q (resources_of claw).limits, eq_refl name) refl,
    bump_request_lem name q (resources_of claw).requests strict,
    rw (lookup-insert name other q (resources_of claw).limits, apart) refl,
    bump_request_other name other q (resources_of claw).requests apart,
    refl,
    refl,
  )
