-- ===== src/Controller/AutoUpdate/Decoding.antt =====
-- The writes of the status by a reconciler that has updated the object before: `rollback` and
-- `reconcileHealthCheck` of internal/controller/autoupdate_controller.go, with what an update leaves
-- of the local status (api/v1alpha1/common_types.go).
use Prim.Native.String.{◌++◌}
use k8s4claw.Base.{
  ◌≡◌, ◌≢◌, refl, ◌∙◌, String, Bool, if◌then◌else◌, true, false, Option, none, some, List, [], ◌∷◌,
  ◌⊎◌, pos, delete,
}
use k8s4claw.Controller.AutoUpdate.Status.{
  AutoUpdateSpec, AutoUpdateStatus, Claw, Condition, roll_back, complete,
  extract_version_from_image, merge_auto_update_status, at_least, max_rollbacks_of,
}
use k8s4claw.Controller.AutoUpdate.Reconcile.{write_back, rollback, pass, requeue_at_next_cron}
use k8s4claw.Controller.AutoUpdate.Cluster.{
  Cluster, Platform, Effect, event, record_check, record_result, set_circuit, update_claw,
  update_claw_status, target_image, annotation, after, update_phase, update_started, Result,
  available, in_progress,
}

-- A field that the server's answer leaves out, because it holds the zero value there, keeps the local
-- value; any other takes the server's.
abbrev pub Overlays : {A : Type 0} → A → A → A → A → Type 0
Overlays zero_value stored local answer =
    ((stored ≡ zero_value) × (answer ≡ local)) ⊎ ((stored ≢ zero_value) × (answer ≡ stored))

-- The object has a status subresource, so an update of the object leaves the stored status as it is
-- and answers with it; the answer is decoded into the object that the local status is a part of. The
-- fields of the status all have `omitempty`.
pub record Decodes (stored local answer : AutoUpdateStatus) : Type 0 where
  pub current_version :
      Overlays "" stored.current_version local.current_version answer.current_version
  pub available_version :
      Overlays "" stored.available_version local.available_version answer.available_version
  pub last_check : Overlays none stored.last_check local.last_check answer.last_check
  pub last_update : Overlays none stored.last_update local.last_update answer.last_update
  pub rollback_count :
      Overlays (pos 0) stored.rollback_count local.rollback_count answer.rollback_count
  pub failed_versions :
      Overlays [] stored.failed_versions local.failed_versions answer.failed_versions
  pub circuit_open : Overlays false stored.circuit_open local.circuit_open answer.circuit_open
  pub version_history :
      Overlays [] stored.version_history local.version_history answer.version_history

-- The statuses that are written, in order.
unfoldable pub statuses : List Effect → List (Option AutoUpdateStatus)
statuses [] = []
statuses (update_claw_status c ∷ es) = c.status ∷ statuses es
statuses (update_claw c ∷ es) = statuses es
statuses (event r ∷ es) = statuses es
statuses (record_check ∷ es) = statuses es
statuses (record_result r ∷ es) = statuses es
statuses (set_circuit b ∷ es) = statuses es

module _ (p : Platform) where
  statuses-write_back :
      (w : Cluster) (texts : String × String × String) (pending : List Condition) (ok : Result)
      (claw again : Claw) (local : AutoUpdateStatus)
      → w.update claw ≡ some local
      → w.get_again claw ≡ some again
      → statuses (write_back p w texts pending ok claw).0 ≡ some local ∷ []
  unfolding write_back statuses merge_auto_update_status
  statuses-write_back w texts pending ok claw again local updated read =
      rw (updated, read, write_back) refl

  -- The object that a rollback updates.
  abbrev pub rolled_claw : Cluster → AutoUpdateSpec → AutoUpdateStatus → Claw → Claw
  rolled_claw w spec s claw = record claw {
    annotations =
        delete update_started (delete update_phase (delete target_image claw.annotations));
    status = some (roll_back w.now spec s);
  }

  -- The object that a health check updates that has passed.
  abbrev pub passed_claw : Cluster → AutoUpdateStatus → Claw → Claw
  passed_claw w s claw = record claw {
    annotations = delete update_started (delete update_phase claw.annotations);
    status = some (complete w.now (extract_version_from_image (annotation target_image claw)) s);
  }

  abbrev pub rolled_back_condition : AutoUpdateStatus → Claw → String → List Condition
  rolled_back_condition s claw reason =
      record {
        kind = in_progress;
        status = false;
        reason = "RolledBack";
        message = "Version " ++ s.available_version ++ " rolled back: " ++ reason;
        observed_generation = claw.generation;
      }
      ∷ []

  abbrev pub rollback_texts : String × String × String
  rollback_texts = (
    "failed to clear annotations on rollback",
    "failed to re-fetch after rollback annotation update", "failed to update status on rollback",
  )

  -- How a rollback ends.
  abbrev pub rollback_write :
      Cluster → AutoUpdateSpec → AutoUpdateStatus → Claw → String → List Effect × Result
  rollback_write w spec s claw reason =
      write_back p w rollback_texts (rolled_back_condition s claw reason)
        (requeue_at_next_cron p spec w.clock) (rolled_claw w spec s claw)

  statuses_opened :
      (b : Bool) (r : List Effect × Result)
      → statuses
          (after (if b then set_circuit true ∷ event "AutoUpdateCircuitOpen" ∷ [] else []) r).0
        ≡ statuses r.0
  unfolding statuses after
  statuses_opened true r = refl
  statuses_opened false r = refl

  pub statuses-rollback :
      (w : Cluster) (spec : AutoUpdateSpec) (s : AutoUpdateStatus) (claw : Claw) (reason : String)
      (again : Claw) (local : AutoUpdateStatus)
      → w.update (rolled_claw w spec s claw) ≡ some local
      → w.get_again (rolled_claw w spec s claw) ≡ some again
      → statuses (rollback p w spec s claw reason).0 ≡ some local ∷ []
  unfolding rollback statuses after write_back merge_auto_update_status
  statuses-rollback w spec s claw reason again local updated read =
      let opens = at_least (max_rollbacks_of spec) (roll_back w.now spec s).rollback_count in
      statuses_opened opens (rollback_write w spec s claw reason)
      ∙ statuses-write_back w rollback_texts (rolled_back_condition s claw reason)
          (requeue_at_next_cron p spec w.clock) (rolled_claw w spec s claw) again local updated read

  abbrev pub passed_conditions : Claw → String → List Condition
  passed_conditions claw version =
      record {
        kind = available;
        status = false;
        reason = "UpToDate";
        message = "Running version " ++ version;
        observed_generation = claw.generation;
      }
      ∷ record {
        kind = in_progress;
        status = false;
        reason = "UpdateComplete";
        message = "Successfully updated to version " ++ version;
        observed_generation = claw.generation;
      }
      ∷ []

  abbrev pub pass_texts : String × String × String
  pass_texts = (
    "failed to clear update annotations", "failed to re-fetch after annotation update",
    "failed to update status after health check",
  )

  pub statuses-pass :
      (w : Cluster) (spec : AutoUpdateSpec) (s : AutoUpdateStatus) (claw again : Claw)
      (local : AutoUpdateStatus)
      → w.update (passed_claw w s claw) ≡ some local
      → w.get_again (passed_claw w s claw) ≡ some again
      → statuses (pass p w spec s claw).0 ≡ some local ∷ []
  unfolding pass statuses after write_back merge_auto_update_status
  statuses-pass w spec s claw again local updated read =
      statuses-write_back w pass_texts
        (passed_conditions claw (extract_version_from_image (annotation target_image claw)))
        (requeue_at_next_cron p spec w.clock) (passed_claw w s claw) again local updated read
