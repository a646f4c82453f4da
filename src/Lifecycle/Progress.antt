-- ===== src/Lifecycle/Progress.antt =====
-- Every write of an escalation's status is a step forward.
use mathlib.Core.Option.{some_inj}
use k8s4claw.Base.{
  ℕ, ◌+◌, ◌≤◌, ◌<◌, ◌≡◌, refl, ap, String, true, false, inl, inr, some, arith, str_eq, ◌⊎◌,
  Bool-cases,
}
use k8s4claw.Controller.Ops.Types.{
  EscalationPhase, unset, pending, auto_executed, analyzing, proposed, awaiting_approval, approved,
  executed, rejected, failed, is_terminal_phase, is_approved, is_pending, Escalation,
}
use k8s4claw.Controller.Ops.{is_due}
use k8s4claw.Companion.Watcher.{set_failed}
use k8s4claw.Cli.Approval.{approve, reject, is_awaiting}
use k8s4claw.Lifecycle.{
  Step, opens, audits, begins, ends, fails, approves, rejects, executes, Steps, here, then,
}

-- How far a phase is.
abbrev pub rank : EscalationPhase → ℕ
rank unset = 0
rank pending = 1
rank analyzing = 2
rank proposed = 2
rank awaiting_approval = 3
rank approved = 4
rank auto_executed = 5
rank executed = 5
rank rejected = 5
rank failed = 5

pub is_approved_lem : (p : EscalationPhase) → is_approved p ≡ true → p ≡ approved
unfolding is_approved
is_approved_lem approved h = refl
is_approved_lem unset h = absurd (ground (arith, h))
is_approved_lem pending h = absurd (ground (arith, h))
is_approved_lem auto_executed h = absurd (ground (arith, h))
is_approved_lem analyzing h = absurd (ground (arith, h))
is_approved_lem proposed h = absurd (ground (arith, h))
is_approved_lem awaiting_approval h = absurd (ground (arith, h))
is_approved_lem executed h = absurd (ground (arith, h))
is_approved_lem rejected h = absurd (ground (arith, h))
is_approved_lem failed h = absurd (ground (arith, h))

is_pending-rank : (p : EscalationPhase) → is_pending p ≡ true → rank p ≡ 1
unfolding is_pending
is_pending-rank unset h = absurd (ground (arith, h))
is_pending-rank pending h = refl
is_pending-rank auto_executed h = absurd (ground (arith, h))
is_pending-rank analyzing h = absurd (ground (arith, h))
is_pending-rank proposed h = absurd (ground (arith, h))
is_pending-rank awaiting_approval h = absurd (ground (arith, h))
is_pending-rank approved h = absurd (ground (arith, h))
is_pending-rank executed h = absurd (ground (arith, h))
is_pending-rank rejected h = absurd (ground (arith, h))
is_pending-rank failed h = absurd (ground (arith, h))

is_awaiting-rank : (p : EscalationPhase) → is_awaiting p ≡ true → rank p ≡ 3
unfolding is_awaiting
is_awaiting-rank unset h = absurd (ground (arith, h))
is_awaiting-rank pending h = absurd (ground (arith, h))
is_awaiting-rank auto_executed h = absurd (ground (arith, h))
is_awaiting-rank analyzing h = absurd (ground (arith, h))
is_awaiting-rank proposed h = absurd (ground (arith, h))
is_awaiting-rank awaiting_approval h = refl
is_awaiting-rank approved h = absurd (ground (arith, h))
is_awaiting-rank executed h = absurd (ground (arith, h))
is_awaiting-rank rejected h = absurd (ground (arith, h))
is_awaiting-rank failed h = absurd (ground (arith, h))

is_terminal_phase-rank : (p : EscalationPhase) → is_terminal_phase p ≡ false → rank p < 5
unfolding is_terminal_phase
is_terminal_phase-rank unset h = omega arith
is_terminal_phase-rank pending h = omega arith
is_terminal_phase-rank auto_executed h = absurd (ground (arith, h))
is_terminal_phase-rank analyzing h = omega arith
is_terminal_phase-rank proposed h = omega arith
is_terminal_phase-rank awaiting_approval h = omega arith
is_terminal_phase-rank approved h = omega arith
is_terminal_phase-rank executed h = absurd (ground (arith, h))
is_terminal_phase-rank rejected h = absurd (ground (arith, h))
is_terminal_phase-rank failed h = absurd (ground (arith, h))

terminal_rank : (p : EscalationPhase) → is_terminal_phase p ≡ true → rank p ≡ 5
unfolding is_terminal_phase
terminal_rank unset h = absurd (ground (arith, h))
terminal_rank pending h = absurd (ground (arith, h))
terminal_rank auto_executed h = refl
terminal_rank analyzing h = absurd (ground (arith, h))
terminal_rank proposed h = absurd (ground (arith, h))
terminal_rank awaiting_approval h = absurd (ground (arith, h))
terminal_rank approved h = absurd (ground (arith, h))
terminal_rank executed h = refl
terminal_rank rejected h = refl
terminal_rank failed h = refl

rank-le : (p : EscalationPhase) → rank p ≤ 5
rank-le unset = omega arith
rank-le pending = omega arith
rank-le auto_executed = omega arith
rank-le analyzing = omega arith
rank-le proposed = omega arith
rank-le awaiting_approval = omega arith
rank-le approved = omega arith
rank-le executed = omega arith
rank-le rejected = omega arith
rank-le failed = omega arith

approve-rank :
    (e e' : Escalation) (by : String) (now : ℕ)
    → approve by now e ≡ some e'
    → rank e.phase < rank e'.phase
unfolding approve
approve-rank e e' by now q = elim (Bool-cases (is_awaiting e.phase)) [
  | inr other ↦ absurd (ground (arith, rw (other, approve) at q))
  | inl waits ↦ elim (Bool-cases (str_eq e.proposed_action "")) [
    | inl empty ↦ absurd (ground (arith, rw (waits, approve, empty) at q))
    | inr there ↦
        let same = ap (λ x. rank x.phase) (some_inj.0 (rw (waits, approve, there) at q)) in
        omega (arith, same, is_awaiting-rank e.phase waits)
  ]
]

reject-rank :
    (e e' : Escalation) (reason : String) → reject reason e ≡ some e' → rank e.phase < rank e'.phase
unfolding reject
reject-rank e e' reason q = elim (Bool-cases (is_terminal_phase e.phase)) [
  | inl over ↦ absurd (ground (arith, rw (over, reject) at q))
  | inr open_still ↦
      let same = ap (λ x. rank x.phase) (some_inj.0 (rw (open_still, reject) at q)) in
      omega (arith, same, is_terminal_phase-rank e.phase open_still)
]

Step-rank : (e e' : Escalation) → Step e e' → rank e.phase < rank e'.phase
unfolding is_due set_failed
Step-rank e e' (opens _ new) = omega (arith, ap rank new)
Step-rank e e' (audits _ p now claw rule new) = omega (arith, ap rank new)
Step-rank e e' (begins _ waits) = omega (arith, is_pending-rank e.phase waits)
Step-rank e e' (ends _ analysis action) = omega arith
Step-rank e e' (fails _ reason) = omega arith
Step-rank e e' (approves _ _ by now q) = approve-rank e e' by now q
Step-rank e e' (rejects _ _ reason q) = reject-rank e e' reason q
Step-rank e e' (executes _ claw now due) =
    omega (arith, ap rank (is_approved_lem e.phase (ground (arith, due))))

Steps-rank : (n : ℕ) (e e' : Escalation) → Steps n e e' → rank e.phase + n ≤ rank e'.phase
Steps-rank n e e' (here _) = omega arith
Steps-rank n e e'' (then m _ e' _ before step) =
    omega (arith, Steps-rank m e e' before, Step-rank e' e'' step)

-- The status of an escalation is written at most five times by the controller, the companion and the
-- human, in whatever order: each write brings it strictly further in the order no phase, Pending,
-- Analyzing, AwaitingApproval, Approved, finished. An escalation that is finished is not written
-- again.
pub lifecycle_bounded :
    (n : ℕ) (e e' : Escalation)
    → Steps n e e'
    → (rank e.phase + n ≤ rank e'.phase) × (n ≤ 5) × ((is_terminal_phase e.phase ≡ false) ⊎ (n ≡ 0))
lifecycle_bounded n e e' steps =
    let far = Steps-rank n e e' steps in
    let most = rank-le e'.phase in
    (
      far,
      omega (arith, far, most),
      elim (Bool-cases (is_terminal_phase e.phase)) [
        | inr open_still ↦ inl open_still
        | inl over ↦ inr (omega (arith, far, most, terminal_rank e.phase over))
      ],
    )
