-- ===== src/Lifecycle/Sources.antt =====
-- What the companion writes: cmd/claw4k8s/watcher.go.
use k8s4claw.Base.{
  ◌≡◌, refl, String, true, inl, inr, List, [], ◌∷◌, ◌⊎◌, arith, Bool-cases, ℤ, ◌<>◌,
}
use k8s4claw.Controller.Ops.Types.{
  EscalationPhase, unset, pending, auto_executed, analyzing, proposed, awaiting_approval, approved,
  executed, rejected, failed, Escalation, is_pending,
}
use k8s4claw.Companion.Pipeline.{Analyzed, analyzed, cancelled, analyze}
use k8s4claw.Companion.Watcher.{
  Env, Act, update, notify, process_escalation, finish, set_failed, begun, proposed_by,
}

is_pending_lem : (p : EscalationPhase) → is_pending p ≡ true → p ≡ pending
unfolding is_pending
is_pending_lem pending h = refl
is_pending_lem unset h = absurd (ground (arith, h))
is_pending_lem approved h = absurd (ground (arith, h))
is_pending_lem auto_executed h = absurd (ground (arith, h))
is_pending_lem analyzing h = absurd (ground (arith, h))
is_pending_lem proposed h = absurd (ground (arith, h))
is_pending_lem awaiting_approval h = absurd (ground (arith, h))
is_pending_lem executed h = absurd (ground (arith, h))
is_pending_lem rejected h = absurd (ground (arith, h))
is_pending_lem failed h = absurd (ground (arith, h))

-- The same claw, trigger and approval, and nothing executed.
abbrev Keeps : Escalation → Escalation → Type 0
Keeps e e' =
    (e'.claw_ref ≡ e.claw_ref)
    × (e'.trigger ≡ e.trigger)
    × (e'.approved_by ≡ e.approved_by)
    × (e'.approved_at ≡ e.approved_at)
    × (e'.executed_action ≡ e.executed_action)
    × (e'.executed_at ≡ e.executed_at)

-- A pending escalation is taken up, or one that is taken up is proposed or given up. The proposed
-- action changes only with a proposal.
abbrev pub Moves : Escalation → Escalation → Type 0
Moves e e' =
    Keeps e e'
    × (((e.phase ≡ pending) × (e'.phase ≡ analyzing) × (e'.proposed_action ≡ e.proposed_action))
        ⊎ (((e.phase ≡ analyzing) × (e'.phase ≡ awaiting_approval))
            ⊎ ((e.phase ≡ analyzing)
                × (e'.phase ≡ failed)
                × (e'.proposed_action ≡ e.proposed_action))))

-- Each status that is written follows the one before.
abbrev pub Chain : Escalation → List Act → Type 0
Chain e [] = Unit
Chain e (update e' ∷ acts) = Moves e e' × Chain e' acts
Chain e (notify e' ∷ acts) = (e'.phase ≡ awaiting_approval) × Chain e acts

takes_up : (e : Escalation) → is_pending e.phase ≡ true → Moves e (begun e)
takes_up e waits =
    ((refl, refl, refl, refl, refl, refl), inl (is_pending_lem e.phase waits, refl, refl))

gives_up : (e : Escalation) (reason : String) → Moves (begun e) (set_failed reason (begun e))
unfolding set_failed
gives_up e reason = ((refl, refl, refl, refl, refl, refl), inr (inr (refl, refl, refl)))

proposes :
    (e : Escalation) (analysis action : String)
    → Moves (begun e) (proposed_by analysis action (begun e))
proposes e analysis action = ((refl, refl, refl, refl, refl, refl), inr (inl (refl, refl)))

finish-Chain :
    (env : Env) (e : Escalation) (result : Analyzed)
    → Chain (begun e) (finish env (begun e) result).acts
unfolding finish
finish-Chain env e cancelled = (gives_up e ("pipeline error: " <> env.pipeline_error), tt)
finish-Chain env e (analyzed analysis action) =
    elim (Bool-cases (env.update_status (proposed_by analysis action (begun e)))) [
      | inl ok ↦ rw (ok, finish, Chain) (proposes e analysis action, (refl, tt))
      | inr lost ↦ rw (lost, finish, Chain) (proposes e analysis action, tt)
    ]

-- The companion takes an escalation only from Pending to Analyzing and from there to
-- AwaitingApproval or Failed, each status following the one before: it never changes the claw, the
-- trigger, the approval or what was executed, changes the proposed action only as it proposes one,
-- and notifies only of one that awaits its approval.
pub process_escalation-Chain :
    (env : Env) (max_retries : ℤ) (esc : Escalation)
    → Chain esc (process_escalation env max_retries esc).acts
unfolding process_escalation
process_escalation-Chain env max_retries esc = elim (Bool-cases (is_pending esc.phase)) [
  | inr other ↦ rw (other, process_escalation, Chain) tt
  | inl waits ↦ elim (Bool-cases (env.update_status (begun esc))) [
    | inr lost ↦ rw (waits, process_escalation, lost, Chain) (takes_up esc waits, tt)
    | inl ok ↦
        rw (waits, process_escalation, ok, Chain)
          (
            takes_up esc waits,
            finish-Chain env esc (analyze (env.model esc) max_retries (begun esc)).result,
          )
  ]
]
