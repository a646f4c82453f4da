-- ===== src/Controller/AutoUpdate/Guards.antt =====
-- When the reconciler writes a new target image, and what it writes at the end of a health check
-- (internal/controller/autoupdate_controller.go).
use Prim.Native.String.{◌++◌}
use k8s4claw.Base.{
  ◌≡◌, refl, sym, ◌∙◌, ap, ap₂, String, Bool, true, false, not, ◌&&◌, none, some, List, [],
  Bool-cases, Option-cases, if◌then◌else◌, str_eq, All, inl, inr, Dict, lookup, insert,
  lookup-insert,
}
use k8s4claw.Registry.Image.{is_digest_pinned, image_for_runtime, registry_url_for_image}
use k8s4claw.Registry.Resolver.{Semver, is_failed, resolve_best_version}
use k8s4claw.Registry.Resolver.Best.{resolve_best_version_skips}
use k8s4claw.Controller.AutoUpdate.Status.{AutoUpdateSpec, AutoUpdateStatus, Claw, Condition}
use k8s4claw.Controller.AutoUpdate.Reconcile.{
  write_back, offer, check_version, is_early, reconcile_enabled, reconcile_spec, reconcile_got,
  reconcile,
}
use k8s4claw.Controller.AutoUpdate.Cluster.{
  Cluster, Platform, Effect, event, record_check, record_result, set_circuit, update_claw,
  update_claw_status, Result, requeue_after, found, target_image, update_phase, update_started,
  annotation, or_default, after, status_of, start_texts, start_conditions, done,
  health_check_poll_interval,
}

-- A write of the object sets the target to a version of the runtime's image that has not failed,
-- starts the health check, and happens with the circuit closed.
abbrev pub Sanctioned : AutoUpdateStatus → String → Effect → Type 0
Sanctioned s base (update_claw c) =
    (v : String) × (annotation target_image c ≡ base ++ ":" ++ v)
    × (annotation update_phase c ≡ "HealthCheck")
    × (is_failed s.failed_versions v ≡ false)
    × (s.circuit_open ≡ false)
Sanctioned s base (event r) = Unit
Sanctioned s base record_check = Unit
Sanctioned s base (record_result r) = Unit
Sanctioned s base (set_circuit b) = Unit
Sanctioned s base (update_claw_status c) = Unit

-- The annotations of an update that starts.
abbrev started : String → String → Dict String → Dict String
started time image m =
    insert update_started time (insert update_phase "HealthCheck" (insert target_image image m))

started_target :
    (time image : String) (m : Dict String)
    → elim (lookup target_image (started time image m)) as (λ x. String) [ none ↦ "" | some v ↦ v ]
      ≡ image
started_target time image m =
    rw
      (
        lookup-insert update_started target_image time
            (insert update_phase "HealthCheck" (insert target_image image m)),
        lookup-insert update_phase target_image "HealthCheck" (insert target_image image m),
        lookup-insert target_image target_image image m,
      )
      refl

started_phase :
    (time image : String) (m : Dict String)
    → elim (lookup update_phase (started time image m)) as (λ x. String) [ none ↦ "" | some v ↦ v ]
      ≡ "HealthCheck"
started_phase time image m =
    rw
      (
        lookup-insert update_started update_phase time
            (insert update_phase "HealthCheck" (insert target_image image m)),
        lookup-insert update_phase update_phase "HealthCheck" (insert target_image image m),
      )
      refl

not_failed :
    (sv : Semver) (tags : List String) (constraint current : String) (bad : List String)
    (v : String)
    → resolve_best_version sv tags constraint current bad ≡ some v
    → is_failed bad v ≡ false
not_failed sv tags constraint current bad v best = elim (Bool-cases (is_failed bad v)) [
  | inl known ↦ absurd (resolve_best_version_skips sv tags constraint current bad v known best)
  | inr good ↦ good
]

if-All :
    (P : Effect → Type 0) (b : Bool) (x y : List Effect × Result)
    → (b ≡ true → All P x.0)
    → (b ≡ false → All P y.0)
    → All P (if b then x else y).0
if-All P true x y h h' = h refl
if-All P false x y h h' = h' refl

module _ (p : Platform) where
  write_back-All :
      (P : Effect → Type 0) (w : Cluster) (texts : String × String × String)
      (pending : List Condition) (ok : Result) (claw : Claw)
      → P (update_claw claw)
      → ((c : Claw) → P (update_claw_status c))
      → All P (write_back p w texts pending ok claw).0
  unfolding write_back
  write_back-All P w texts pending ok claw h hs = elim (Option-cases (w.update claw)) [
    | inl bad ↦ rw (bad, All, write_back) (h, tt)
    | inr (local, good) ↦ elim (Option-cases (w.get_again claw)) [
      | inl bad ↦ rw (good, bad, All, write_back) (h, tt)
      | inr (again, good') ↦ rw (good, good', All, write_back) (h, (hs _, tt))
    ]
  ]

  offer-Sanctioned :
      (w : Cluster) (spec : AutoUpdateSpec) (s s' : AutoUpdateStatus) (claw : Claw)
      (base v : String)
      → is_failed s.failed_versions v ≡ false
      → s'.circuit_open ≡ s.circuit_open
      → All (Sanctioned s base) (offer p w spec s' claw base v).0
  unfolding offer annotation after
  offer-Sanctioned w spec s s' claw base v fresh same =
      if-All (Sanctioned s base) s'.circuit_open _ _ (λ opened. (tt, (tt, (tt, tt))))
        (λ closed. (
          tt,
          (
            tt,
            write_back-All (Sanctioned s base) w start_texts (start_conditions claw v)
                (requeue_after health_check_poll_interval)
                (record claw {
                  annotations =
                      started (p.format_rfc3339 w.now) (base ++ ":" ++ v) claw.annotations;
                  status = some (record s' { available_version = v; last_update = some w.now });
                })
                (
                  v,
                  started_target (p.format_rfc3339 w.now) (base ++ ":" ++ v) claw.annotations,
                  started_phase (p.format_rfc3339 w.now) (base ++ ":" ++ v) claw.annotations,
                  fresh,
                  sym same ∙ closed,
                )
                (λ c. tt),
          ),
        ))

  module _ (sv : Semver) where
    check_version-Sanctioned :
        (w : Cluster) (spec : AutoUpdateSpec) (s : AutoUpdateStatus) (claw : Claw)
        → All (Sanctioned s (image_for_runtime claw.runtime)) (check_version p sv w spec s claw).0
    unfolding check_version after
    check_version-Sanctioned w spec s claw =
        let base = image_for_runtime claw.runtime in
        elim (Bool-cases (str_eq base "")) [
          | inl unknown ↦ rw (unknown, All) (tt, tt)
          | inr known ↦ elim (Option-cases (w.list_tags (registry_url_for_image base))) [
            | inl unlisted ↦ rw (known, unlisted, All) (tt, tt)
            | inr (tags, listed) ↦
                elim (Option-cases (
                  resolve_best_version sv tags (or_default spec.version_constraint ">=0.0.0")
                    s.current_version s.failed_versions)) [
                      | inl nothing ↦ rw (known, listed, nothing, All) (tt, (tt, tt))
                      | inr (v, best) ↦
                          rw (known, listed, best, All)
                            (
                              tt,
                              offer-Sanctioned w spec s (record s { last_check = some w.now }) claw
                                  base v
                                  (not_failed sv tags (or_default spec.version_constraint ">=0.0.0")
                                    s.current_version s.failed_versions v best)
                                  refl,
                            )
                    ]
          ]
        ]

    reconcile_enabled-Sanctioned :
        (w : Cluster) (spec : AutoUpdateSpec) (s : AutoUpdateStatus) (claw : Claw)
        → str_eq (annotation update_phase claw) "HealthCheck" ≡ false
        → All
            (Sanctioned s (image_for_runtime claw.runtime))
            (reconcile_enabled p sv w spec s claw).0
    unfolding reconcile_enabled
    reconcile_enabled-Sanctioned w spec s claw idle =
        elim (Bool-cases (
          not (str_eq (annotation target_image claw) "")
          && is_digest_pinned (annotation target_image claw))) [
            | inl pinned ↦ rw (idle, pinned, All) tt
            | inr free ↦ elim (Bool-cases (is_early p sv spec s w.clock)) [
              | inl early ↦ rw (idle, free, early, All) tt
              | inr due ↦ rw (idle, free, due) (check_version-Sanctioned w spec s claw)
            ]
          ]

    reconcile_found :
        (w : Cluster) (claw : Claw) (spec : AutoUpdateSpec) (s : AutoUpdateStatus)
        → w.get ≡ found claw
        → claw.spec ≡ some spec
        → status_of claw.status ≡ s
        → reconcile p sv w ≡ (
            if spec.enabled
            then reconcile_enabled p sv w spec s (record claw { status = some s })
            else ([], done))
    unfolding reconcile reconcile_got reconcile_spec status_of
    reconcile_found w claw spec s got given known =
        ap (reconcile_got p sv w) got ∙ ap₂ (reconcile_spec p sv w claw) given known

    -- Outside a health check, the object is written only to start an update: to a version of the
    -- image of the runtime that has not failed before, and only while the circuit is closed. A claw
    -- without a status counts as one with an empty status.
    pub reconcile-Sanctioned :
        (w : Cluster) (claw : Claw) (spec : AutoUpdateSpec) (s : AutoUpdateStatus)
        → w.get ≡ found claw
        → claw.spec ≡ some spec
        → status_of claw.status ≡ s
        → str_eq (annotation update_phase claw) "HealthCheck" ≡ false
        → All (Sanctioned s (image_for_runtime claw.runtime)) (reconcile p sv w).0
    unfolding annotation
    reconcile-Sanctioned w claw spec s got given known idle =
        rw (reconcile_found w claw spec s got given known) (
          if-All (Sanctioned s (image_for_runtime claw.runtime)) spec.enabled _ _
            (λ on. reconcile_enabled-Sanctioned w spec s (record claw { status = some s }) idle)
            (λ off. tt))
