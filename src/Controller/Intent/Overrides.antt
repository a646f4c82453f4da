-- ===== src/Controller/Intent/Overrides.antt =====
-- The pod template under the overrides of a `Claw` (`applyResourceOverrides` of
-- internal/controller/claw_ops_intent_consumer.go).
use mathlib.Core.Option.{some_inj}
use k8s4claw.Base.{
  ◌≡◌, refl, ◌∙◌, ap, inl, inr, String, Option, none, some, List, [], ◌∷◌, arith, Bool-cases,
  if◌then◌else◌, str_eq, eq_iff, Dict, lookup, insert, lookup-insert, IsUnique,
}
use k8s4claw.Controller.Intent.Template.{
  Container, PodTemplate, overlay, merge_resource_requirements, override_runtime, overridden,
  apply_resource_overrides,
}
use k8s4claw.Controller.Intent.Types.{Claw, ResourceRequirements}

-- The first value if there is one, or else the second.
abbrev pub first_of : {Q : Type 0} → Option Q → Option Q → Option Q
first_of none b = b
first_of (some a) b = some a

lookup-overlay :
    {Q : Type 0}
    → (name : String) (dst src : Dict Q) → IsUnique src
    → lookup name (overlay dst src) ≡ first_of (lookup name src) (lookup name dst)
unfolding overlay lookup
lookup-overlay name dst [] unique = refl
lookup-overlay name dst ((own, q) ∷ src) unique = ground (
  arith,
  lookup-overlay name (insert own q dst) src unique.1,
  lookup-insert own name q dst,
  eq_iff own name,
  unique.0,
)

-- The resources of the first container named "runtime".
unfoldable pub runtime_of : {Q : Type 0} → List (Container Q) → Option (ResourceRequirements Q)
runtime_of [] = none
runtime_of (c ∷ cs) =
    let rest = runtime_of cs in if str_eq c.name "runtime" then some c.resources else rest

runtime_of-override_runtime :
    {Q : Type 0}
    → (res : ResourceRequirements Q) (cs : List (Container Q)) (r : ResourceRequirements Q)
    → runtime_of cs ≡ some r
    → runtime_of (override_runtime res cs) ≡ some (merge_resource_requirements r res)
unfolding runtime_of override_runtime
runtime_of-override_runtime res [] r q = absurd cc
runtime_of-override_runtime res (c ∷ cs) r q = elim (Bool-cases (str_eq c.name "runtime")) [
  | inl runtime ↦
      let same = some_inj.0 (rw runtime at q) in
      rw (runtime, runtime_of)
        (rw runtime (ap (λ x. some (merge_resource_requirements x res)) same))
  | inr other ↦
      rw (other, runtime_of) (rw other (runtime_of-override_runtime res cs r (rw other at q)))
]

-- What a `Claw` sets wins over what the adapter gave the runtime's container: with resources and a
-- container named "runtime", that container has each limit and each request of the `Claw`, and its
-- own where the `Claw` has none, if no resource stands twice in the `Claw`.
apply_resource_overrides_wins :
    {Q : Type 0}
    → (claw : Claw Q) (t : PodTemplate Q) (res r : ResourceRequirements Q) (name : String)
    → claw.resources ≡ some res
    → runtime_of t.containers ≡ some r
    → IsUnique res.limits
    → IsUnique res.requests
    → (r' : ResourceRequirements Q) × (runtime_of (apply_resource_overrides claw t).containers
        ≡ some r')
      × (lookup name r'.limits ≡ first_of (lookup name res.limits) (lookup name r.limits))
      × (lookup name r'.requests ≡ first_of (lookup name res.requests) (lookup name r.requests))
unfolding merge_resource_requirements apply_resource_overrides overridden
apply_resource_overrides_wins claw t res r name given has limits requests = (
  merge_resource_requirements r res,
  ap (λ o. runtime_of (overridden o t.containers)) given
      ∙ runtime_of-override_runtime res t.containers r has,
  lookup-overlay name r.limits res.limits limits,
  lookup-overlay name r.requests res.requests requests,
)
