-- ===== src/Controller/AutoUpdate/Tests.antt =====
-- An update of openclaw from 1.2.0, and its health check, on a cluster whose writes succeed.
use Prim.Native.String.{◌++◌}
use k8s4claw.Base.{
  ◌≡◌, ap, inl, inr, refl, String, true, false, if◌then◌else◌, str_eq, none, some, [], ◌∷◌, pos,
  arith, All, lookup, leb, after_first,
}
use k8s4claw.Registry.Image.{image_for_runtime}
use k8s4claw.Registry.Resolver.Examples.{by_length}
use k8s4claw.Controller.AutoUpdate.Status.{
  AutoUpdateSpec, AutoUpdateStatus, Claw, empty_status, roll_back, complete,
  extract_version_from_image, max_rollbacks_of, increment, add_failed, trim_version_history,
  at_least,
}
use k8s4claw.Controller.AutoUpdate.Reconcile.{reconcile_health_check, reconcile, health_timeout_of}
use k8s4claw.Controller.AutoUpdate.Cluster.{
  Cluster, Platform, StatefulSet, found, target_image, update_phase, update_started, annotation,
  overdue, status_of, is_ready,
}
use k8s4claw.Controller.AutoUpdate.Rollback.{Rolled, fresh, rolls, capped, rollbacks_lost}
use k8s4claw.Controller.AutoUpdate.Guards.{Sanctioned, reconcile-Sanctioned}
use k8s4claw.Controller.AutoUpdate.Health.{Leaves, reconcile_health_check_ends, completion_lost}
use k8s4claw.Controller.AutoUpdate.Decoding.{statuses, statuses-rollback, rolled_claw, passed_claw}

abbrev spec : AutoUpdateSpec
spec = record {
  enabled = true;
  version_constraint = "";
  schedule = "";
  health_timeout = "";
  max_rollbacks = pos 2;
}

abbrev status : AutoUpdateStatus
status = record empty_status {
  current_version = "1.2";
  available_version = "1.2.10";
  failed_versions = "1.2.100" ∷ [];
}

abbrev idle : Claw
idle = record {
  runtime = "openclaw";
  generation = 1;
  annotations = [];
  spec = some spec;
  status = some status;
  conditions = [];
}

abbrev image : String
image = "ghcr.io/prismer-ai/k8s4claw-openclaw:1.2.10"

abbrev checking : Claw
checking = record idle {
  annotations =
      (target_image, "ghcr.io/prismer-ai/k8s4claw-openclaw" ++ ":" ++ "1.2.10")
      ∷ (update_phase, "HealthCheck")
      ∷ (update_started, "start")
      ∷ [];
}

abbrev replicas : StatefulSet
replicas = record { replicas = none; updated_replicas = 1; ready_replicas = 1 }

abbrev cluster : Cluster
cluster = record {
  get = found idle;
  list_tags = λ url. some ("1.2.10" ∷ "1.2.100" ∷ []);
  stateful_set = found replicas;
  update = λ c. c.status;
  get_again = λ c. some c;
  update_status = λ c. true;
  clock = 700_000_000_000;
  now = 700_000_000_000;
}

abbrev platform : Platform
platform = record {
  Schedule = Unit;
  parse_cron = λ s. none;
  next = λ s t. t;
  parse_duration = λ s. none;
  parse_rfc3339 = λ s. some 5;
  format_rfc3339 = λ t. "start";
  set_status_condition = λ cs c. c ∷ cs;
}

-- The answers of a server that keeps its status: the status that is stored, with the zero values
-- taken from the local one.
abbrev stored : AutoUpdateStatus
stored = record status { rollback_count = pos 0; circuit_open = false }

abbrev over : AutoUpdateStatus → AutoUpdateStatus
over local = record local {
  current_version = "1.2";
  available_version = "1.2.10";
  failed_versions = "1.2.100" ∷ [];
}

abbrev real : Cluster
real = record cluster { update = λ c. elim c.status [ none ↦ none | some s ↦ some (over s) ] }

abbrev rolled_once : AutoUpdateStatus
rolled_once = over (roll_back 700_000_000_000 spec stored)

abbrev after_one : Rolled platform spec 1 rolled_once
unfolding roll_back increment add_failed trim_version_history at_least
after_one =
    rolls 0 stored rolled_once rolled_once real checking
      (rolled_claw platform real spec stored checking) "health check timed out"
      (fresh stored refl refl) refl
      (record {
        current_version = inr ((λ q. ground (arith, ap (λ s. str_eq s "") q)), refl);
        available_version = inr ((λ q. ground (arith, ap (λ s. str_eq s "") q)), refl);
        last_check = inl (refl, refl);
        last_update = inl (refl, refl);
        rollback_count = inl (refl, refl);
        failed_versions = inr ((λ q. ground (arith, q)), refl);
        circuit_open = inl (refl, refl);
        version_history = inl (refl, refl);
      })
      refl
      (statuses-rollback platform real spec stored checking "health check timed out"
        (rolled_claw platform real spec stored checking) rolled_once refl refl)

-- The second rollback opens the circuit of a maximum of 2, but is not counted.
abbrev rolled_twice : AutoUpdateStatus
rolled_twice = record rolled_once { circuit_open = true }

abbrev later : Cluster
later = record cluster { update = λ c. some rolled_twice }

abbrev after_two : Rolled platform spec 2 rolled_twice
unfolding roll_back increment add_failed trim_version_history at_least max_rollbacks_of
after_two =
    rolls 1 rolled_once rolled_twice rolled_twice later checking
      (rolled_claw platform later spec rolled_once checking) "health check timed out" after_one refl
      (record {
        current_version = inr ((λ q. ground (arith, ap (λ s. str_eq s "") q)), refl);
        available_version = inr ((λ q. ground (arith, ap (λ s. str_eq s "") q)), refl);
        last_check = inl (refl, refl);
        last_update = inl (refl, refl);
        rollback_count = inr ((λ q. ground (arith, q)), refl);
        failed_versions = inr ((λ q. ground (arith, q)), refl);
        circuit_open = inl (refl, refl);
        version_history = inr ((λ q. ground (arith, q)), refl);
      })
      refl
      (statuses-rollback platform later spec rolled_once checking "health check timed out"
        (rolled_claw platform later spec rolled_once checking) rolled_twice refl refl)

rollbacks_lost_example :
    (rolled_twice.rollback_count ≡ pos (capped 2 1))
    × (rolled_twice.circuit_open ≡ leb (max_rollbacks_of spec) (capped 2 2))
rollbacks_lost_example = rollbacks_lost platform spec 2 rolled_twice after_two

reconcile-Sanctioned_example :
    All (Sanctioned status (image_for_runtime "openclaw")) (reconcile platform by_length cluster).0
unfolding annotation lookup status_of
reconcile-Sanctioned_example =
    reconcile-Sanctioned platform by_length cluster idle spec status refl refl refl refl

reconcile_health_check_ends_example :
    Leaves platform cluster (reconcile_health_check platform cluster spec status checking)
unfolding annotation overdue health_timeout_of
reconcile_health_check_ends_example =
    reconcile_health_check_ends platform cluster spec status checking 5 refl refl (λ q. cc)

abbrev finished : AutoUpdateStatus
finished = over (
    complete 700_000_000_000 (extract_version_from_image (annotation target_image checking)) stored)

completion_lost_example :
    (statuses (reconcile_health_check platform real spec stored checking).0 ≡ some finished ∷ [])
    × (finished.current_version ≡ (if str_eq "1.2" "" then "1.2.10" else "1.2"))
    × (finished.rollback_count ≡ pos 0)
    × (finished.circuit_open ≡ false)
unfolding annotation lookup is_ready after_first complete trim_version_history
completion_lost_example =
    completion_lost platform real spec stored finished checking
      (passed_claw platform real stored checking) 5 replicas "ghcr.io/prismer-ai/k8s4claw-openclaw"
      "1.2.10" refl refl refl refl refl refl refl
      (record {
        current_version = inr ((λ q. ground (arith, ap (λ s. str_eq s "") q)), refl);
        available_version = inr ((λ q. ground (arith, ap (λ s. str_eq s "") q)), refl);
        last_check = inl (refl, refl);
        last_update = inl (refl, refl);
        rollback_count = inl (refl, refl);
        failed_versions = inr ((λ q. ground (arith, q)), refl);
        circuit_open = inl (refl, refl);
        version_history = inl (refl, refl);
      })
      refl
