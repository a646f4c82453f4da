-- ===== src/Controller/AutoUpdate/Health.antt =====
-- What a health check writes (`reconcileHealthCheck` of
-- internal/controller/autoupdate_controller.go).
use Prim.Native.String.{◌++◌}
use k8s4claw.Base.{
  ℕ, ◌≡◌, ◌≢◌, ◌⊎◌, refl, sym, ◌∙◌, ap, String, Bool, true, false, Option, none, some, List, [],
  ◌∷◌, arith, Bool-cases, inl, inr, Dict, lookup, delete, lookup-delete, Lacks, Option-cases,
  if◌then◌else◌, str_eq, eq_iff,
}
use k8s4claw.Controller.AutoUpdate.Status.{
  AutoUpdateSpec, AutoUpdateStatus, Claw, Condition, roll_back, complete,
  extract_version_from_image, at_least, max_rollbacks_of,
}
use k8s4claw.Controller.AutoUpdate.Reconcile.{
  write_back, rollback, pass, health_timeout_of, reconcile_health_check, requeue_at_next_cron,
}
use k8s4claw.Controller.AutoUpdate.Cluster.{
  Cluster, Platform, Effect, event, record_check, record_result, set_circuit, update_claw,
  update_claw_status, Result, Found, found, not_found, get_failed, target_image, update_phase,
  update_started, annotation, overdue, is_ready, after, StatefulSet, failed,
}
use k8s4claw.Controller.AutoUpdate.Version.{extract_version_from_image-append}
use k8s4claw.Controller.AutoUpdate.Decoding.{
  Overlays, Decodes, statuses, statuses-pass, rolled_claw, passed_claw, rollback_texts, pass_texts,
  rolled_back_condition, passed_conditions, rollback_write,
}

-- The first write of the object among the calls.
unfoldable pub written : List Effect → Option Claw
written [] = none
written (update_claw c ∷ es) = some c
written (event r ∷ es) = written es
written (record_check ∷ es) = written es
written (record_result r ∷ es) = written es
written (set_circuit b ∷ es) = written es
written (update_claw_status c ∷ es) = written es

cleared_phase :
    (m : Dict String) → lookup update_phase (delete update_started (delete update_phase m)) ≡ none
cleared_phase m =
    rw
      (
        lookup-delete update_started update_phase (delete update_phase m),
        lookup-delete update_phase update_phase m,
      )
      refl

cleared_start :
    (m : Dict String) → lookup update_started (delete update_started (delete update_phase m)) ≡ none
cleared_start m = rw (lookup-delete update_started update_started (delete update_phase m)) refl

Found-cases :
    {A : Type 0} → (f : Found A) → (f ≡ not_found) ⊎ ((f ≡ get_failed) ⊎ ((a : A) × (f ≡ found a)))
Found-cases (found a) = inr (inr (a, refl))
Found-cases not_found = inl refl
Found-cases get_failed = inr (inl refl)

-- A zero value that is decoded into is the stored one.
kept : {A : Type 0} {z stored answer : A} → Overlays z stored z answer → answer ≡ stored
kept (inl (unset, same)) = same ∙ sym unset
kept (inr (there, same)) = same

version_kept :
    (stored v answer : String)
    → Overlays "" stored v answer
    → answer ≡ (if str_eq stored "" then v else stored)
version_kept stored v answer (inl (unset, same)) = ground (arith, unset, same, eq_iff stored "")
version_kept stored v answer (inr (there, same)) = ground (arith, there, same, eq_iff stored "")

module _ (p : Platform) where
  -- The object is written without the phase and the start, and if the write is refused an error is
  -- returned.
  abbrev pub Leaves : Cluster → List Effect × Result → Type 0
  Leaves w r =
      (c : Claw) × (written r.0 ≡ some c)
      × (lookup update_phase c.annotations ≡ none)
      × (lookup update_started c.annotations ≡ none)
      × ((w.update c ≢ none) ⊎ ((text : String) × (r.1 ≡ failed text)))

  answered :
      (w : Cluster) (texts : String × String × String) (pending : List Condition) (ok : Result)
      (c : Claw)
      → (w.update c ≢ none)
        ⊎ ((text : String) × ((write_back p w texts pending ok c).1 ≡ failed text))
  unfolding write_back
  answered w texts pending ok c = elim (Option-cases (w.update c)) [
    | inl lost ↦ inr (texts.0, rw (lost, write_back) refl)
    | inr (local, taken) ↦ inl (λ lost. ground (arith, taken, lost))
  ]

  written-write_back :
      (w : Cluster) (texts : String × String × String) (pending : List Condition) (ok : Result)
      (c : Claw)
      → written (write_back p w texts pending ok c).0 ≡ some c
  unfolding write_back written
  written-write_back w texts pending ok c = ground arith

  written_opened :
      (b : Bool) (r : List Effect × Result)
      → (written
            (after (if b then set_circuit true ∷ event "AutoUpdateCircuitOpen" ∷ [] else []) r).0
          ≡ written r.0)
        × ((after (if b then set_circuit true ∷ event "AutoUpdateCircuitOpen" ∷ [] else []) r).1
            ≡ r.1)
  unfolding written after
  written_opened true r = (refl, refl)
  written_opened false r = (refl, refl)

  rollback-Leaves :
      (w : Cluster) (spec : AutoUpdateSpec) (s : AutoUpdateStatus) (claw : Claw) (reason : String)
      → Leaves w (rollback p w spec s claw reason)
  unfolding rollback written after
  rollback-Leaves w spec s claw reason =
      let opens = at_least (max_rollbacks_of spec) (roll_back w.now spec s).rollback_count in
      let quiet = written_opened opens (rollback_write p w spec s claw reason) in
      let pending = rolled_back_condition p s claw reason in
      let ok = requeue_at_next_cron p spec w.clock in
      let c = rolled_claw p w spec s claw in
      (
        c,
        quiet.0 ∙ written-write_back w (rollback_texts p) pending ok c,
        cleared_phase (delete target_image claw.annotations),
        cleared_start (delete target_image claw.annotations),
        elim (answered w (rollback_texts p) pending ok c) [
          | inl taken ↦ inl taken
          | inr (text, lost) ↦ inr (text, quiet.1 ∙ lost)
        ],
      )

  pass-Leaves :
      (w : Cluster) (spec : AutoUpdateSpec) (s : AutoUpdateStatus) (claw : Claw)
      → Leaves w (pass p w spec s claw)
  unfolding pass written after
  pass-Leaves w spec s claw =
      let pending =
        passed_conditions p claw (extract_version_from_image (annotation target_image claw)) in
      let ok = requeue_at_next_cron p spec w.clock in
      let c = passed_claw p w s claw in
      (
        c,
        written-write_back w (pass_texts p) pending ok c,
        cleared_phase claw.annotations,
        cleared_start claw.annotations,
        answered w (pass_texts p) pending ok c,
      )

  Leaves-by : (w : Cluster) (r r' : List Effect × Result) → r ≡ r' → Leaves w r' → Leaves w r
  Leaves-by w r r' same h = rw same h

  -- A health check whose time is over, with a StatefulSet that could be asked for, leaves the phase:
  -- the reconciliation writes the object without the annotations of the phase and of the start, and
  -- returns an error if this write is refused.
  pub reconcile_health_check_ends :
      (w : Cluster) (spec : AutoUpdateSpec) (s : AutoUpdateStatus) (claw : Claw) (start : ℕ)
      → p.parse_rfc3339 (annotation update_started claw) ≡ some start
      → overdue w.clock start (health_timeout_of p spec) ≡ true
      → w.stateful_set ≢ get_failed
      → Leaves w (reconcile_health_check p w spec s claw)
  unfolding reconcile_health_check
  reconcile_health_check_ends w spec s claw start parsed late reachable =
      elim (Found-cases w.stateful_set) [
        | inl gone ↦
            Leaves-by w (reconcile_health_check p w spec s claw)
              (rollback p w spec s claw "StatefulSet not found within health timeout")
              (rw (parsed, gone, late, reconcile_health_check) refl)
              (rollback-Leaves w spec s claw "StatefulSet not found within health timeout")
        | inr (inl bad) ↦ absurd (reachable bad)
        | inr (inr (sts, there)) ↦ elim (Bool-cases (is_ready sts)) [
          | inl ready ↦
              Leaves-by w (reconcile_health_check p w spec s claw) (pass p w spec s claw)
                (rw (parsed, there, ready, reconcile_health_check) refl) (pass-Leaves w spec s claw)
          | inr waiting ↦
              Leaves-by w (reconcile_health_check p w spec s claw)
                (rollback p w spec s claw "health check timed out")
                (rw (parsed, there, waiting, late, reconcile_health_check) refl)
                (rollback-Leaves w spec s claw "health check timed out")
        ]
      ]

  -- A health check that passes for a version without a slash or a colon, if the update of the object
  -- answers with the stored status, decoded over the local one, and the object can be read again:
  -- the one status that is written has the version that was asked for as the current one only if no
  -- current version was stored, and keeps the stored count of rollbacks and circuit, which the
  -- completed update resets.
  pub completion_lost :
      (w : Cluster) (spec : AutoUpdateSpec) (s local : AutoUpdateStatus) (claw again : Claw)
      (start : ℕ) (sts : StatefulSet) (base v : String)
      → Lacks b'/' v
      → Lacks b':' v
      → annotation target_image claw ≡ base ++ ":" ++ v
      → p.parse_rfc3339 (annotation update_started claw) ≡ some start
      → w.stateful_set ≡ found sts
      → is_ready sts ≡ true
      → w.update (passed_claw p w s claw) ≡ some local
      → Decodes s
          (complete w.now (extract_version_from_image (annotation target_image claw)) s)
          local
      → w.get_again (passed_claw p w s claw) ≡ some again
      → (statuses (reconcile_health_check p w spec s claw).0 ≡ some local ∷ [])
        × (local.current_version ≡ (if str_eq s.current_version "" then v else s.current_version))
        × (local.rollback_count ≡ s.rollback_count)
        × (local.circuit_open ≡ s.circuit_open)
  unfolding reconcile_health_check complete
  completion_lost w spec s local claw again start sts base v slash colon target parsed there ready
        updated decoded read =
      let passed : reconcile_health_check p w spec s claw ≡ pass p w spec s claw =
        rw (parsed, there, ready, reconcile_health_check) refl in
      (
        ap (λ r. statuses r.0) passed ∙ statuses-pass p w spec s claw again local updated read,
        version_kept s.current_version (extract_version_from_image (annotation target_image claw))
              local.current_version decoded.current_version
            ∙ ap (λ u. if str_eq s.current_version "" then u else s.current_version)
                (ap extract_version_from_image target
                  ∙ extract_version_from_image-append base v slash colon),
        kept decoded.rollback_count,
        kept decoded.circuit_open,
      )
