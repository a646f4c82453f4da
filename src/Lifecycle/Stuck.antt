-- ===== src/Lifecycle/Stuck.antt =====
-- An escalation whose analysis was not written: cmd/claw4k8s/watcher.go,
-- cmd/kubectl-claw/main.go and internal/controller/clawops_controller.go.
use k8s4claw.Base.{ℕ, ◌≡◌, refl, ap, String, false, none, [], arith, str_eq, ℤ}
use k8s4claw.Controller.Ops.Types.{
  analyzing, is_terminal_phase, is_approved, is_pending, Escalation, Claw, Ops,
}
use k8s4claw.Controller.Ops.{is_due, is_expired, is_active}
use k8s4claw.Companion.Watcher.{Env, process_escalation}
use k8s4claw.Cli.Approval.{approve, is_awaiting}

-- An escalation that is left in Analyzing, because its analysis could not be written or the
-- companion stopped: the companion passes it over, it cannot be approved, is not executed and does
-- not expire, and it keeps the controller from another escalation of this trigger.
analyzing_stuck :
    (env : Env) (max_retries : ℤ) (by : String) (now : ℕ) (ops : Ops) (claw : Claw)
    (esc : Escalation)
    → esc.phase ≡ analyzing
    → ((process_escalation env max_retries esc).acts ≡ [])
      × (approve by now esc ≡ none)
      × (is_due claw esc ≡ false)
      × (is_expired now ops claw esc ≡ false)
      × (is_active claw esc ≡ str_eq esc.claw_ref claw.name)
unfolding process_escalation approve is_due is_expired is_active is_pending is_awaiting is_approved
    is_terminal_phase
analyzing_stuck env max_retries by now ops claw esc stuck = (
  rw stuck refl,
  rw stuck refl,
  ground (arith, ap is_approved stuck),
  ground (arith, ap is_terminal_phase stuck),
  ground (arith, ap is_terminal_phase stuck),
)
