-- ===== src/Controller/Ops/Sanctioned.antt =====
-- What the operations controller may do to a claw and its escalations
-- (internal/controller/clawops_controller.go).
use k8s4claw.Base.{◌≡◌, String, true, false, ◌⊎◌, Option, some, List, Mem, lookup}
use k8s4claw.Rules.Types.{Signal, Rule, TriggerType}
use k8s4claw.Rules.Engine.{rule_matches}
use k8s4claw.Controller.Intent.Types.{ops_intent}
use k8s4claw.Controller.Ops.Types.{
  pending, auto_executed, Escalation, Ops, Claw, Platform, Cluster, Call, patch_claw,
  create_escalation, update_escalation, delete_escalation, event,
}
use k8s4claw.Controller.Ops.{is_due, executed_at_time, is_expired, is_active_type, rule_intent}
use k8s4claw.Controller.Ops.Reconciled.{Picks}

-- An action that was approved: an escalation of the claw, which proposes it.
abbrev pub IsApproved : Cluster → Claw → String → Type 0
IsApproved w claw action =
    (escs : List Escalation) × (esc : Escalation) × (w.listed_for_approval ≡ some escs)
    × Mem esc escs
    × (is_due claw esc ≡ true)
    × (esc.proposed_action ≡ action)

-- An action of a rule that matches a new signal, within the budget.
abbrev pub IsRuled : Platform → Cluster → Ops → Claw → String → Type 0
IsRuled p w ops claw action =
    (sig : Signal) × (rule : Rule) × Picks p w claw ops sig rule
    × (rule_matches ops.rule_engine w.now claw.name rule sig ≡ true)
    × (p.marshal (rule_intent w.now rule) ≡ action)

-- The trigger has no escalation of the claw under way, as far as they could be listed.
abbrev pub IsNew : Cluster → Claw → TriggerType → Type 0
IsNew w claw t =
    (escs : List Escalation) → w.listed_for_dedup ≡ some escs → is_active_type claw escs t ≡ false

-- What the calls of a reconciliation of a claw may be.
abbrev pub Allowed : Platform → Cluster → Ops → Claw → Call → Type 0
Allowed p w ops claw (patch_claw c) =
    (action : String) × (lookup ops_intent c.annotations ≡ some action)
    × (IsApproved w claw action ⊎ IsRuled p w ops claw action)
Allowed p w ops claw (create_escalation e) = (e.claw_ref ≡ claw.name) × IsNew w claw e.trigger.type
Allowed p w ops claw (update_escalation e) =
    (e.claw_ref ≡ claw.name)
    × ((e.phase ≡ pending)
        ⊎ (e.phase ≡ auto_executed)
        ⊎ ((escs : List Escalation) × (esc : Escalation) × (w.listed_for_approval ≡ some escs)
            × Mem esc escs
            × (is_due claw esc ≡ true)
            × (e ≡ executed_at_time w.now esc)))
Allowed p w ops claw (delete_escalation e) =
    (escs : List Escalation) × (w.listed_for_gc ≡ some escs)
    × Mem e escs
    × (is_expired w.now ops claw e ≡ true)
Allowed p w ops claw (event r) = Unit
