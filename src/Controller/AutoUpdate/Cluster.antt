-- ===== src/Controller/AutoUpdate/Cluster.antt =====
-- What the reconciler of automatic updates asks the cluster and the libraries, what it calls, and
-- the small tests of internal/controller/autoupdate_controller.go.
use Prim.Native.String.{◌++◌}
use k8s4claw.Base.{
  ℕ, suc, ◌+◌, ◌*◌, String, Bool, true, ◌&&◌, Option, none, some, List, [], ◌∷◌, ℤ, pos, negsuc,
  if◌then◌else◌, ltb, leb, str_eq, lookup,
}
use k8s4claw.Controller.AutoUpdate.Status.{AutoUpdateStatus, Claw, Condition, empty_status}

-- The answer to a request for an object.
pub data Found (A : Type 0) : Type 0 where
  found : A → Found A
  not_found : Found A
  get_failed : Found A

-- The replicas that are asked for, updated and ready.
pub record StatefulSet : Type 0 where
  pub replicas : Option ℕ
  pub updated_replicas : ℕ
  pub ready_replicas : ℕ

-- The world during one reconciliation. `update` gives what the local status holds once the
-- server's answer has been decoded into the object that it is a part of.
pub record Cluster : Type 0 where
  pub get : Found Claw
  pub list_tags : String → Option (List String)
  pub stateful_set : Found StatefulSet
  pub update : Claw → Option AutoUpdateStatus
  pub get_again : Claw → Option Claw
  pub update_status : Claw → Bool
  pub clock : ℕ
  pub now : ℕ

pub record Platform : Type 1 where
  pub Schedule : Type 0
  pub parse_cron : String → Option Schedule
  pub next : Schedule → ℕ → ℕ
  pub parse_duration : String → Option ℤ
  pub parse_rfc3339 : String → Option ℕ
  pub format_rfc3339 : ℕ → String
  pub set_status_condition : List Condition → Condition → List Condition

-- The calls that change something outside: events by their reason, metrics and writes.
pub data Effect : Type 0 where
  event : String → Effect
  record_check : Effect
  record_result : String → Effect
  set_circuit : Bool → Effect
  update_claw : Claw → Effect
  update_claw_status : Claw → Effect

pub data Result : Type 0 where
  done : Result
  requeue_after : ℕ → Result
  failed : String → Result

abbrev pub target_image : String
target_image = "claw.prismer.ai/target-image"

abbrev pub update_phase : String
update_phase = "claw.prismer.ai/update-phase"

abbrev pub update_started : String
update_started = "claw.prismer.ai/update-started"

abbrev pub available : String
available = "AutoUpdateAvailable"

abbrev pub in_progress : String
in_progress = "AutoUpdateInProgress"

abbrev pub second : ℕ
second = 1_000_000_000

abbrev pub health_check_poll_interval : ℕ
health_check_poll_interval = 15 * second

abbrev pub default_health_timeout : ℕ
default_health_timeout = 10 * 60 * second

-- A reading of a map: "" for a key that is not there.
unfoldable pub annotation : String → Claw → String
annotation k claw = elim (lookup k claw.annotations) [ none ↦ "" | some v ↦ v ]

unfoldable pub or_default : String → String → String
or_default s d = if str_eq s "" then d else s

-- `Since(started) > timeout`
unfoldable pub overdue : ℕ → ℕ → ℤ → Bool
overdue clock started (pos t) = ltb (started + t) clock
overdue clock started (negsuc t) = ltb started (clock + suc t)

-- The status; an empty one is made if there is none.
unfoldable pub status_of : Option AutoUpdateStatus → AutoUpdateStatus
status_of none = empty_status
status_of (some s) = s

-- Whether all replicas that are asked for, one if none is given, are updated and ready.
unfoldable pub is_ready : StatefulSet → Bool
is_ready sts =
    let desired : ℕ = elim sts.replicas [ none ↦ 1 | some n ↦ n ] in
    leb desired sts.updated_replicas && leb desired sts.ready_replicas

abbrev pub is_available : Claw → String → Condition
is_available claw message = record {
  kind = available;
  status = true;
  reason = "NewVersionFound";
  message = message;
  observed_generation = claw.generation;
}

abbrev pub start_conditions : Claw → String → List Condition
start_conditions claw v =
    is_available claw ("Version " ++ v ++ " is available")
    ∷ record {
      kind = in_progress;
      status = true;
      reason = "UpdateStarted";
      message = "Updating to version " ++ v;
      observed_generation = claw.generation;
    }
    ∷ []

abbrev pub start_texts : String × String × String
start_texts = (
  "failed to set target-image annotation", "failed to re-fetch after annotation update",
  "failed to update status",
)

-- Calls in front of what follows.
unfoldable pub after : List Effect → List Effect × Result → List Effect × Result
after [] r = r
after (e ∷ es) r = let rest = after es r in (e ∷ rest.0, rest.1)
