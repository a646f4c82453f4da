-- ===== src/Controller/Ops/Escalations.antt =====
-- The escalations that wait for their execution or their deletion: `processApprovedEscalations` and
-- `gcExpiredEscalations` of internal/controller/clawops_controller.go.
use k8s4claw.Base.{
  ℕ, ◌+◌, ◌*◌, String, Bool, true, false, not, ◌&&◌, none, some, List, [], ◌∷◌, ℤ, pos, negsuc,
  if◌then◌else◌, ltb, str_eq, Dict, insert,
}
use k8s4claw.Controller.Intent.Types.{ops_intent}
use k8s4claw.Controller.Ops.Types.{
  executed, is_terminal_phase, is_approved, Escalation, Ops, Claw, Cluster, patch_claw,
  update_escalation, delete_escalation, event, Done, second,
}

-- The intent is put on the object.
abbrev pub with_intent : String → Claw → Claw
with_intent json claw = record claw { annotations = insert ops_intent json claw.annotations }

-- The approved escalations of the claw that propose an action.
unfoldable pub is_due : Claw → Escalation → Bool
is_due claw esc =
    str_eq esc.claw_ref claw.name && (is_approved esc.phase && not (str_eq esc.proposed_action ""))

-- The status of an escalation whose action is executed.
abbrev pub executed_at_time : ℕ → Escalation → Escalation
executed_at_time now esc = record esc {
  phase = executed;
  executed_action = esc.proposed_action;
  executed_at = some now;
}

-- The loop of `processApprovedEscalations`; it ends with the first error.
unfoldable pub process_approved : Cluster → Claw → List Escalation → Done
process_approved w claw [] = record { calls = []; is_error = false }
process_approved w claw (esc ∷ escs) = elim (is_due claw esc) [
  | false ↦ process_approved w claw escs
  | true ↦
      let patched = with_intent esc.proposed_action claw in
      let e = executed_at_time w.now esc in
      elim (w.patch patched) [
        | none ↦ record { calls = patch_claw patched ∷ []; is_error = true }
        | some annotations ↦ elim (w.update_status e) [
          | false ↦ record {
            calls = patch_claw patched ∷ update_escalation e ∷ [];
            is_error = true;
          }
          | true ↦
              let rest = process_approved w (record claw { annotations = annotations }) escs in
              record rest {
                calls =
                    patch_claw patched
                    ∷ update_escalation e
                    ∷ event "ApprovedRemediation"
                    ∷ rest.calls;
              }
        ]
      ]
]

unfoldable pub process_approved_escalations : Cluster → Claw → Done
process_approved_escalations w claw = elim w.listed_for_approval [
  | none ↦ record { calls = []; is_error = true }
  | some escs ↦ process_approved w claw escs
]

-- What the loop leaves of the annotations of the claw in memory.
unfoldable pub annotations_after : Cluster → Claw → List Escalation → Dict String
annotations_after w claw [] = claw.annotations
annotations_after w claw (esc ∷ escs) = elim (is_due claw esc) [
  | false ↦ annotations_after w claw escs
  | true ↦
      let patched = with_intent esc.proposed_action claw in
      elim (w.patch patched) [
        | none ↦ patched.annotations
        | some annotations ↦ elim (w.update_status (executed_at_time w.now esc)) [
          | false ↦ annotations
          | true ↦ annotations_after w (record claw { annotations = annotations }) escs
        ]
      ]
]

-- The claw in memory after `processApprovedEscalations`.
unfoldable pub approved_annotations : Cluster → Claw → Dict String
approved_annotations w claw = elim w.listed_for_approval [
  | none ↦ claw.annotations
  | some escs ↦ annotations_after w claw escs
]

abbrev pub claw_after : Cluster → Claw → Claw
claw_after w claw = record claw { annotations = approved_annotations w claw }

unfoldable pub ttl_of : Ops → Escalation → ℤ
ttl_of ops esc = elim esc.ttl_seconds_after_finished [
  | none ↦ ops.config.escalation_ttl
  | some ttl ↦ ttl
]

-- `time.Since(created) > ttl * time.Second`, without a difference below zero.
unfoldable pub is_past : ℕ → ℕ → ℤ → Bool
is_past now created (pos ttl) = ltb (created + ttl * second) now
is_past now created (negsuc n) = ltb created (now + (n + 1) * second)

unfoldable pub is_expired : ℕ → Ops → Claw → Escalation → Bool
is_expired now ops claw esc =
    str_eq esc.claw_ref claw.name
    && (is_terminal_phase esc.phase && is_past now esc.created (ttl_of ops esc))

-- The loop of `gcExpiredEscalations`; it ends with the first error.
unfoldable pub gc_expired : Cluster → Ops → Claw → List Escalation → Done
gc_expired w ops claw [] = record { calls = []; is_error = false }
gc_expired w ops claw (esc ∷ escs) =
    let rest = gc_expired w ops claw escs in
    if is_expired w.now ops claw esc
    then (if w.delete esc
        then (record rest { calls = delete_escalation esc ∷ rest.calls })
        else (record { calls = delete_escalation esc ∷ []; is_error = true }))
    else rest

unfoldable pub gc_expired_escalations : Cluster → Ops → Claw → Done
gc_expired_escalations w ops claw = elim w.listed_for_gc [
  | none ↦ record { calls = []; is_error = true }
  | some escs ↦ gc_expired w ops claw escs
]
