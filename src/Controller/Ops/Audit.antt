-- ===== src/Controller/Ops/Audit.antt =====
-- What the execution of a rule leaves in the controller: internal/controller/clawops_controller.go
-- and internal/rules/engine.go.
use k8s4claw.Base.{ℕ, ◌≡◌, true, false, [], ◌∷◌, ◌++◌, ◌⊎◌}
use k8s4claw.Rules.Types.{Rule}
use k8s4claw.Rules.Engine.{record_execution}
use k8s4claw.Controller.Ops.Types.{Ops, Claw, Cluster, Outcome}
use k8s4claw.Controller.Ops.{actions_of}

-- The action counts against the budget of the claw's name, and the rule's cooldown has started.
abbrev pub IsCounted : ℕ → Claw → Rule → Ops → Ops → Type 0
IsCounted now claw rule before after =
    (actions_of claw.name after ≡ actions_of claw.name before ++ (now ∷ []))
    × (after.rule_engine ≡ record_execution now claw.name rule.id before.rule_engine)

-- Either no error is returned and the action is counted, or one is returned and the controller's
-- state is as it was, also when the intent has been written by then.
abbrev pub Counts : Cluster → Claw → Ops → Rule → Outcome → Type 0
Counts w claw ops rule out =
    ((out.is_error ≡ false) × IsCounted w.now claw rule ops out.ops)
    ⊎ ((out.is_error ≡ true) × (out.ops ≡ ops))
