-- ===== src/Controller/AutoUpdate/Reconcile.antt =====
-- `Reconcile`, `reconcileHealthCheck` and `rollback` of
-- internal/controller/autoupdate_controller.go, with the calls that they make in order. The
-- cluster's answers, the clocks, the cron and semver libraries, `SetStatusCondition`, the duration
-- parser and the RFC 3339 texts are parameters.
use Prim.Native.String.{◌++◌}
use k8s4claw.Base.{
  ℕ, ◌-◌, ◌*◌, String, Bool, true, false, not, ◌&&◌, Option, none, some, List, [], ◌∷◌, ℤ, pos,
  if◌then◌else◌, ltb, str_eq, insert, delete,
}
use k8s4claw.Registry.Image.{is_digest_pinned, image_for_runtime, registry_url_for_image}
use k8s4claw.Registry.Resolver.{Semver, resolve_best_version}
use k8s4claw.Controller.AutoUpdate.Cluster.{
  Cluster, Effect, Found, Platform, Result, after, annotation, available, default_health_timeout,
  done, event, failed, found, get_failed, health_check_poll_interval, in_progress, is_available,
  is_ready, not_found, or_default, overdue, record_check, record_result, requeue_after, second,
  set_circuit, start_conditions, start_texts, status_of, target_image, update_claw,
  update_claw_status, update_phase, update_started,
}
use k8s4claw.Controller.AutoUpdate.Status.{
  AutoUpdateSpec, AutoUpdateStatus, Claw, Condition, roll_back, complete, at_least,
  max_rollbacks_of, extract_version_from_image, merge_auto_update_status,
}

module _ (p : Platform) where
  -- The schedule is due if its first tick after the last check is over, or if it does not parse.
  unfoldable pub is_check_due : String → ℕ → ℕ → Bool
  is_check_due schedule last_check clock = elim (p.parse_cron schedule) [
    | none ↦ true
    | some sched ↦ ltb (p.next sched last_check) clock
  ]

  unfoldable pub requeue_at_next_cron : AutoUpdateSpec → ℕ → Result
  unfolding or_default
  requeue_at_next_cron spec clock = elim (p.parse_cron (or_default spec.schedule "0 3 * * *")) [
    | none ↦ requeue_after (60 * 60 * second)
    | some sched ↦
        let delay = p.next sched clock - clock in
        requeue_after (if ltb delay (60 * second) then 60 * second else delay)
  ]

  unfoldable pub set_conditions : List Condition → List Condition → List Condition
  set_conditions conditions [] = conditions
  set_conditions conditions (c ∷ cs) = set_conditions (p.set_status_condition conditions c) cs

  -- The end that the three writers share: the annotations are written, the object is read again,
  -- the local status is merged into it and written.
  unfoldable pub write_back :
      Cluster → String × String × String → List Condition → Result → Claw → List Effect × Result
  unfolding set_conditions merge_auto_update_status
  write_back w (unwritten, unread, unmerged) pending ok claw = elim (w.update claw) [
    | none ↦ (update_claw claw ∷ [], failed unwritten)
    | some local ↦ elim (w.get_again claw) [
      | none ↦ (update_claw claw ∷ [], failed unread)
      | some again ↦
          let merged = merge_auto_update_status again local in
          let final : Claw = record merged {
            conditions = set_conditions merged.conditions pending;
          } in
          (
            update_claw claw ∷ update_claw_status final ∷ [],
            if w.update_status final then ok else failed unmerged,
          )
    ]
  ]

  unfoldable pub rollback :
      Cluster → AutoUpdateSpec → AutoUpdateStatus → Claw → String → List Effect × Result
  unfolding after write_back roll_back requeue_at_next_cron
  rollback w spec status claw reason =
      let failed_version = status.available_version in
      let status' = roll_back w.now spec status in
      let opened : List Effect =
        if at_least (max_rollbacks_of spec) status'.rollback_count
        then set_circuit true ∷ event "AutoUpdateCircuitOpen" ∷ []
        else [] in
      let pending : List Condition =
        record {
          kind = in_progress;
          status = false;
          reason = "RolledBack";
          message = "Version " ++ failed_version ++ " rolled back: " ++ reason;
          observed_generation = claw.generation;
        }
        ∷ [] in
      after (event "AutoUpdateRollback" ∷ record_result "rollback" ∷ []) (
        after opened (
          write_back w
            (
              "failed to clear annotations on rollback",
              "failed to re-fetch after rollback annotation update",
              "failed to update status on rollback",
            )
            pending (requeue_at_next_cron spec w.clock)
            (record claw {
              annotations =
                  delete update_started
                    (delete update_phase (delete target_image claw.annotations));
              status = some status';
            })))

  -- The branch of a health check that has passed.
  unfoldable pub pass : Cluster → AutoUpdateSpec → AutoUpdateStatus → Claw → List Effect × Result
  unfolding after write_back complete requeue_at_next_cron annotation extract_version_from_image
  pass w spec status claw =
      let version = extract_version_from_image (annotation target_image claw) in
      let pending : List Condition =
        record {
          kind = available;
          status = false;
          reason = "UpToDate";
          message = "Running version " ++ version;
          observed_generation = claw.generation;
        }
        ∷ record {
          kind = in_progress;
          status = false;
          reason = "UpdateComplete";
          message = "Successfully updated to version " ++ version;
          observed_generation = claw.generation;
        }
        ∷ [] in
      after (event "AutoUpdateComplete" ∷ set_circuit false ∷ record_result "success" ∷ []) (
        write_back w
          (
            "failed to clear update annotations", "failed to re-fetch after annotation update",
            "failed to update status after health check",
          )
          pending (requeue_at_next_cron spec w.clock)
          (record claw {
            annotations = delete update_started (delete update_phase claw.annotations);
            status = some (complete w.now version status);
          }))

  -- The configured timeout; one that is empty or does not parse stands for the default.
  unfoldable pub health_timeout_of : AutoUpdateSpec → ℤ
  health_timeout_of spec =
      if str_eq spec.health_timeout ""
      then pos default_health_timeout
      else elim (p.parse_duration spec.health_timeout) [
        | none ↦ pos default_health_timeout
        | some d ↦ d
      ]

  unfoldable pub reconcile_health_check :
      Cluster → AutoUpdateSpec → AutoUpdateStatus → Claw → List Effect × Result
  unfolding rollback pass health_timeout_of overdue is_ready annotation
  reconcile_health_check w spec status claw =
      elim (p.parse_rfc3339 (annotation update_started claw)) [
        | none ↦ rollback w spec status claw "invalid start time"
        | some started ↦
            let late = overdue w.clock started (health_timeout_of spec) in
            elim w.stateful_set [
              | not_found ↦
                  if late
                  then rollback w spec status claw "StatefulSet not found within health timeout"
                  else ([], requeue_after health_check_poll_interval)
              | get_failed ↦ ([], failed "failed to get StatefulSet")
              | found sts ↦
                  if is_ready sts
                  then pass w spec status claw
                  else (if late
                      then rollback w spec status claw "health check timed out"
                      else ([], requeue_after health_check_poll_interval))
            ]
      ]

  -- `Reconcile` once a version check has found a version.
  unfoldable pub offer :
      Cluster → AutoUpdateSpec → AutoUpdateStatus → Claw → String → String → List Effect × Result
  unfolding after write_back requeue_at_next_cron
  offer w spec status claw base new_version =
      let status' : AutoUpdateStatus = record status { available_version = new_version } in
      if status.circuit_open
      then (let claw' : Claw = record claw {
        status = some status';
        conditions =
            p.set_status_condition claw.conditions
              (is_available claw ("Version " ++ new_version ++ " is available (circuit open)"));
      } in
          (
            event "AutoUpdateCircuitOpen" ∷ set_circuit true ∷ update_claw_status claw' ∷ [],
            if w.update_status claw'
                then requeue_at_next_cron spec w.clock
                else failed "failed to update status",
          ))
      else (after (event "AutoUpdateAvailable" ∷ event "AutoUpdateStarting" ∷ []) (
          write_back w start_texts (start_conditions claw new_version)
            (requeue_after health_check_poll_interval)
            (record claw {
              annotations = insert update_started (p.format_rfc3339 w.now) (
                  insert update_phase "HealthCheck"
                    (insert target_image (base ++ ":" ++ new_version) claw.annotations));
              status = some (record status' { last_update = some w.now });
            })))

  module _ (sv : Semver) where
    -- The version check itself.
    unfoldable pub check_version :
        Cluster → AutoUpdateSpec → AutoUpdateStatus → Claw → List Effect × Result
    unfolding after offer requeue_at_next_cron or_default
    check_version w spec status claw =
        let base = image_for_runtime claw.runtime in
        after (record_check ∷ []) (
          if str_eq base ""
          then ([], requeue_at_next_cron spec w.clock)
          else elim (w.list_tags (registry_url_for_image base)) [
            | none ↦ ([], requeue_after (5 * 60 * second))
            | some tags ↦
                let status' : AutoUpdateStatus = record status { last_check = some w.now } in
                elim (resolve_best_version sv tags (or_default spec.version_constraint ">=0.0.0")
                  status.current_version status.failed_versions) [
                    | none ↦
                        let claw' : Claw = record claw { status = some status' } in
                        (
                          update_claw_status claw' ∷ [],
                          if w.update_status claw'
                              then requeue_at_next_cron spec w.clock
                              else failed "failed to update status after version check",
                        )
                    | some v ↦ offer w spec status' claw base v
                  ]
          ])

    -- Whether the check can wait: there was one, and the schedule is not due.
    unfoldable pub is_early : AutoUpdateSpec → AutoUpdateStatus → ℕ → Bool
    unfolding is_check_due or_default
    is_early spec status clock = elim status.last_check [
      | none ↦ false
      | some last ↦ not (is_check_due (or_default spec.schedule "0 3 * * *") last clock)
    ]

    unfoldable pub reconcile_enabled :
        Cluster → AutoUpdateSpec → AutoUpdateStatus → Claw → List Effect × Result
    unfolding check_version reconcile_health_check requeue_at_next_cron is_early annotation
    reconcile_enabled w spec status claw =
        if str_eq (annotation update_phase claw) "HealthCheck"
        then reconcile_health_check w spec status claw
        else (if not (str_eq (annotation target_image claw) "")
              && is_digest_pinned (annotation target_image claw)
            then ([], requeue_at_next_cron spec w.clock)
            else (if is_early spec status w.clock
                then ([], requeue_at_next_cron spec w.clock)
                else check_version w spec status claw))

    -- An update that is configured and enabled, or not.
    unfoldable pub reconcile_spec :
        Cluster → Claw → Option AutoUpdateSpec → AutoUpdateStatus → List Effect × Result
    unfolding reconcile_enabled
    reconcile_spec w claw none status = ([], done)
    reconcile_spec w claw (some spec) status =
        if spec.enabled
        then reconcile_enabled w spec status (record claw { status = some status })
        else ([], done)

    -- The answer to the first request; an object that is gone needs no update.
    unfoldable pub reconcile_got : Cluster → Found Claw → List Effect × Result
    unfolding reconcile_spec status_of
    reconcile_got w not_found = ([], done)
    reconcile_got w get_failed = ([], failed "get")
    reconcile_got w (found claw) = reconcile_spec w claw claw.spec (status_of claw.status)

    unfoldable pub reconcile : Cluster → List Effect × Result
    unfolding reconcile_got
    reconcile w = reconcile_got w w.get
