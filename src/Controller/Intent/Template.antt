-- ===== src/Controller/Intent/Template.antt =====
-- The overrides of the pod template: `applyResourceOverrides` and `mergeResourceRequirements` of
-- internal/controller/claw_ops_intent_consumer.go.
use k8s4claw.Base.{
  String, Option, none, some, List, [], ◌∷◌, if◌then◌else◌, str_eq, Dict, lookup, insert,
}
use k8s4claw.Controller.Intent.Types.{Claw, ResourceRequirements, restarted_at}

-- `mergeResourceRequirements`: the source's entries over the destination's.
unfoldable pub overlay : {Q : Type 0} → Dict Q → Dict Q → Dict Q
overlay dst [] = dst
overlay dst ((name, q) ∷ src) = overlay (insert name q dst) src

unfoldable pub merge_resource_requirements :
    {Q : Type 0} → ResourceRequirements Q → ResourceRequirements Q → ResourceRequirements Q
merge_resource_requirements dst src = record {
  limits = overlay dst.limits src.limits;
  requests = overlay dst.requests src.requests;
}

pub record Container (Q : Type 0) : Type 0 where
  pub name : String
  pub resources : ResourceRequirements Q

pub record PodTemplate (Q : Type 0) : Type 0 where
  pub containers : List (Container Q)
  pub annotations : Dict String

-- The resources of the first container named "runtime", overlaid.
unfoldable pub override_runtime :
    {Q : Type 0} → ResourceRequirements Q → List (Container Q) → List (Container Q)
override_runtime res [] = []
override_runtime res (c ∷ cs) =
    let rest = override_runtime res cs in
    if str_eq c.name "runtime"
    then (record c { resources = merge_resource_requirements c.resources res }) ∷ cs
    else c ∷ rest

unfoldable pub overridden :
    {Q : Type 0} → Option (ResourceRequirements Q) → List (Container Q) → List (Container Q)
overridden none cs = cs
overridden (some res) cs = override_runtime res cs

-- The time of the last restart, copied to the pods.
unfoldable pub stamp_restart : Option String → Dict String → Dict String
stamp_restart none annotations = annotations
stamp_restart (some stamp) annotations =
    if str_eq stamp "" then annotations else insert restarted_at stamp annotations

unfoldable pub apply_resource_overrides : {Q : Type 0} → Claw Q → PodTemplate Q → PodTemplate Q
apply_resource_overrides claw t = record {
  containers = overridden claw.resources t.containers;
  annotations = stamp_restart (lookup restarted_at claw.annotations) t.annotations;
}
