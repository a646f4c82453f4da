-- ===== src/Lifecycle/Approved.antt =====
-- Nothing that the companion proposes is executed without a human's approval.
use mathlib.Core.Path.{subst}
use mathlib.Core.Option.{some_inj}
use k8s4claw.Base.{ℕ, ◌≡◌, refl, sym, String, false, inl, inr, some, arith, str_eq, Bool-cases}
use k8s4claw.Controller.Ops.Types.{
  EscalationPhase, pending, approved, executed, is_terminal_phase, Escalation,
}
use k8s4claw.Controller.Ops.{is_due}
use k8s4claw.Companion.Watcher.{set_failed}
use k8s4claw.Cli.Approval.{approve, reject, is_awaiting}
use k8s4claw.Lifecycle.{
  Step, opens, audits, begins, ends, fails, approves, rejects, executes, Steps, here, then,
}
use k8s4claw.Lifecycle.Progress.{is_approved_lem}

-- A human approved the action that is proposed.
abbrev pub IsVouched : Escalation → Type 0
IsVouched e = (t : ℕ) × (e.approved_at ≡ some t) × (str_eq e.proposed_action "" ≡ false)

-- What a phase says of the rest.
abbrev pub At : EscalationPhase → Escalation → Type 0
At approved e = IsVouched e
At executed e = IsVouched e × (e.executed_action ≡ e.proposed_action)
At _ e = Unit

approve-At :
    (e e' : Escalation) (by : String) (now : ℕ) → approve by now e ≡ some e' → At e'.phase e'
unfolding approve
approve-At e e' by now q = elim (Bool-cases (is_awaiting e.phase)) [
  | inr other ↦ absurd (ground (arith, rw (other, approve) at q))
  | inl waits ↦ elim (Bool-cases (str_eq e.proposed_action "")) [
    | inl empty ↦ absurd (ground (arith, rw (waits, approve, empty) at q))
    | inr there ↦
        subst (λ x. At x.phase x) (some_inj.0 (rw (waits, approve, there) at q)) (now, refl, there)
  ]
]

reject-At : (e e' : Escalation) (reason : String) → reject reason e ≡ some e' → At e'.phase e'
unfolding reject
reject-At e e' reason q = elim (Bool-cases (is_terminal_phase e.phase)) [
  | inl over ↦ absurd (ground (arith, rw (over, reject) at q))
  | inr open_still ↦ subst (λ x. At x.phase x) (some_inj.0 (rw (open_still, reject) at q)) tt
]

Step-At : (e e' : Escalation) → At e.phase e → Step e e' → At e'.phase e'
unfolding is_due set_failed
Step-At e e' inv (opens _ new) = tt
Step-At e e' inv (audits _ p now claw rule new) = tt
Step-At e e' inv (begins _ waits) = tt
Step-At e e' inv (ends _ analysis action) = tt
Step-At e e' inv (fails _ reason) = tt
Step-At e e' inv (approves _ _ by now q) = approve-At e e' by now q
Step-At e e' inv (rejects _ _ reason q) = reject-At e e' reason q
Step-At e e' inv (executes _ claw now due) =
    (subst (λ p. At p e) (is_approved_lem e.phase (ground (arith, due))) inv, refl)

Steps-At : (n : ℕ) (e e' : Escalation) → At e.phase e → Steps n e e' → At e'.phase e'
Steps-At n e e' inv (here _) = inv
Steps-At n e e'' inv (then m _ e' _ before step) = Step-At e' e'' (Steps-At m e e' inv before) step

-- An escalation that starts as pending, however it is written after that, is Executed only after an
-- approval, whose time it holds: what was executed is its proposed action, and this is not empty.
pub executed-IsVouched :
    (n : ℕ) (e e' : Escalation)
    → e.phase ≡ pending
    → Steps n e e'
    → e'.phase ≡ executed
    → IsVouched e' × (e'.executed_action ≡ e'.proposed_action)
executed-IsVouched n e e' start steps over =
    subst (λ p. At p e') over (Steps-At n e e' (subst (λ p. At p e) (sym start) tt) steps)
