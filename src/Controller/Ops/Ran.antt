-- ===== src/Controller/Ops/Ran.antt =====
-- The record of one executed action (internal/controller/clawops_controller.go).
use k8s4claw.Base.{◌≡◌, refl, ◌⊎◌, inl, inr, List, [], ◌∷◌, Bool-cases, Option-cases}
use k8s4claw.Rules.Types.{Signal, Rule}
use k8s4claw.Controller.Ops.Types.{
  Escalation, Ops, Claw, Platform, Cluster, Call, patch_claw, create_escalation, update_escalation,
  event, Outcome,
}
use k8s4claw.Controller.Ops.{
  auto_execute, finish_execute, new_escalation, with_created, with_intent, recorded, rule_intent,
  audited,
}
use k8s4claw.Controller.Ops.RateLimit.{audits}
use k8s4claw.Controller.Ops.Audits.{audits_sum, audit_counts, audit_stale}

-- A rule that is executed is recorded exactly if its audit record is completed.
abbrev pub Ran : Platform → Cluster → Claw → Ops → Rule → Outcome → Type 0
Ran p w claw ops rule out =
    ((out.ops ≡ ops) × (audits w claw.name out.calls ≡ 0))
    ⊎ ((out.ops ≡ recorded w.now claw rule ops) × (audits w claw.name out.calls ≡ 1))

finish_execute-Ran :
    (p : Platform) (w : Cluster) (claw : Claw) (ops : Ops) (rule : Rule) (before : List Call)
    (esc : Escalation)
    → esc.claw_ref ≡ claw.name
    → audits w claw.name before ≡ 0
    → Ran p w claw ops rule (finish_execute p w claw ops rule before esc)
unfolding finish_execute
finish_execute-Ran p w claw ops rule before esc ref quiet =
    let e = audited p w.now claw rule esc in
    elim (Bool-cases (w.update_status e)) [
      | inl ok ↦
          rw (ok, finish_execute)
            (inr (
              refl,
              audits_sum w claw.name 0 1 before (update_escalation e ∷ event "AutoRemediation" ∷ [])
                  quiet (audit_counts p w claw rule esc "AutoRemediation" ref ok),
            ))
      | inr stale ↦
          rw (stale, finish_execute)
            (inl (
              refl,
              audits_sum w claw.name 0 0 before (update_escalation e ∷ []) quiet
                  (audit_stale p w claw rule esc stale),
            ))
    ]

pub auto_execute-Ran :
    (p : Platform) (w : Cluster) (claw : Claw) (ops : Ops) (sig : Signal) (rule : Rule)
    → Ran p w claw ops rule (auto_execute p w claw ops sig rule)
unfolding auto_execute new_escalation
auto_execute-Ran p w claw ops sig rule =
    let json = p.marshal (rule_intent w.now rule) in
    let esc = new_escalation w.now claw ops sig in
    elim (Option-cases (w.patch (with_intent json claw))) [
      | inl lost ↦ rw (lost, auto_execute) (inl (refl, refl))
      | inr (annotations, done) ↦ elim (Option-cases (w.create esc)) [
        | inl none_made ↦ rw (done, auto_execute, none_made) (inl (refl, refl))
        | inr (c, made) ↦
            rw (done, auto_execute, made)
              (finish_execute-Ran p w claw ops rule
                (patch_claw (with_intent json claw) ∷ create_escalation esc ∷ [])
                (with_created c esc) refl refl)
      ]
    ]
