-- ===== src/Controller/Intent/Types.antt =====
-- The data of an intent and the pods (internal/controller/clawops_intent.go,
-- internal/controller/claw_ops_intent_consumer.go), with the libraries and the cluster as records.
use k8s4claw.Base.{
  ℕ, String, Bool, ◌||◌, Option, none, some, List, [], ◌∷◌, ℤ, if◌then◌else◌, ltb, str_eq, Dict,
}

abbrev pub ops_intent : String
ops_intent = "claw.prismer.ai/ops-intent"

abbrev pub ops_intent_gen : String
ops_intent_gen = "claw.prismer.ai/ops-intent-gen"

abbrev pub restarted_at : String
restarted_at = "claw.prismer.ai/restartedAt"

pub record OpsIntent : Type 0 where
  pub action : String
  pub params : Dict String
  pub generation : ℤ
  pub source : String
  pub escalation_ref : String

-- The libraries: a number that is written reads back.
pub record Codec : Type 1 where
  pub Quantity : Type 0
  pub zero_quantity : Quantity
  pub parse_quantity : String → Option Quantity
  pub is_less : Quantity → Quantity → Bool
  pub unmarshal : String → Option OpsIntent
  pub parse_int : String → Option ℤ
  pub parse_int32 : String → Option ℤ
  pub format_int : ℤ → String

-- `allowedIntentActions[action]`
unfoldable pub is_allowed : String → Bool
is_allowed action =
    str_eq action "bump-memory"
    || (str_eq action "bump-cpu"
        || (str_eq action "restart-pod"
            || (str_eq action "rollout-restart" || str_eq action "scale-replicas")))

pub record Pod : Type 0 where
  pub name : String
  pub created : ℕ

unfoldable pub oldest_of : Pod → List Pod → Pod
oldest_of oldest [] = oldest
oldest_of oldest (pod ∷ pods) =
    oldest_of (if ltb pod.created oldest.created then pod else oldest) pods

-- The pod that `applyRestartPod` deletes.
unfoldable pub oldest_pod : List Pod → Option Pod
oldest_pod [] = none
oldest_pod (pod ∷ pods) = some (oldest_of pod pods)

-- `ResourceRequirements`; a map that is not there and an empty one are the same here.
pub record ResourceRequirements (Q : Type 0) : Type 0 where
  pub limits : Dict Q
  pub requests : Dict Q

-- What an intent reads and writes of a `Claw`.
pub record Claw (Q : Type 0) : Type 0 where
  pub annotations : Dict String
  pub replicas : Option ℤ
  pub resources : Option (ResourceRequirements Q)

pub record IntentPatch (Q : Type 0) : Type 0 where
  pub action : String
  pub memory_limit : Q
  pub cpu_limit : Q
  pub replicas : ℤ

-- The cluster during one run.
pub record World (Q : Type 0) : Type 0 where
  pub list_pods : Option (List Pod)
  pub delete_pod : Pod → Bool
  pub patch : Claw Q → Bool
  pub now : String

-- The calls that change something outside.
pub data Effect (Q : Type 0) : Type 0 where
  delete_pod_call : Pod → Effect Q
  patch_call : Claw Q → Effect Q
  event : String → Effect Q

-- The calls, the object as it is left in memory, and whether an error is returned.
pub record Outcome (Q : Type 0) : Type 0 where
  pub effects : List (Effect Q)
  pub claw : Claw Q
  pub is_error : Bool

-- What there is to do: nothing, an intent, or an intent that cannot be read or is not allowed.
pub data Parsed : Type 0 where
  nothing : Parsed
  intent : OpsIntent → Parsed
  invalid : Parsed

-- The resources of a `Claw`; empty ones are made if there are none.
abbrev pub resources_of : {Q : Type 0} → Claw Q → ResourceRequirements Q
resources_of claw = elim claw.resources [
  | none ↦ record { limits = []; requests = [] }
  | some r ↦ r
]
