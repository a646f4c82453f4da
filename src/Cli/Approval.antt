-- ===== src/Cli/Approval.antt =====
-- `approve` and `reject`: cmd/kubectl-claw/main.go. The escalation that is read, the clock and the
-- answer of the API server are arguments; the result is the exit code and what was written.
use k8s4claw.Base.{ℕ, String, Bool, true, false, Option, none, some, List, if◌then◌else◌, str_eq}
use k8s4claw.Controller.Ops.Types.{
  EscalationPhase, unset, pending, auto_executed, analyzing, proposed, awaiting_approval, approved,
  executed, rejected, failed, is_terminal_phase, Escalation,
}
use k8s4claw.Cli.Flags.{Parsed, common_flags}

-- The environment of a run of the tool.
pub record Shell : Type 0 where
  pub user : String
  pub is_connected : Bool
  pub get : String → String → Option Escalation
  pub now : ℕ
  pub update_status : Escalation → Bool

pub record Exit : Type 0 where
  pub code : ℕ
  -- The status update that was asked for.
  pub written : Option Escalation

-- `phase == AwaitingApproval`
unfoldable pub is_awaiting : EscalationPhase → Bool
is_awaiting awaiting_approval = true
is_awaiting unset = false
is_awaiting pending = false
is_awaiting auto_executed = false
is_awaiting analyzing = false
is_awaiting proposed = false
is_awaiting approved = false
is_awaiting executed = false
is_awaiting rejected = false
is_awaiting failed = false

unfoldable pub current_user : Shell → String
current_user sh = if str_eq sh.user "" then "unknown" else sh.user

-- The escalation with its approval, if it may be approved.
unfoldable pub approve : String → ℕ → Escalation → Option Escalation
approve by now esc =
    if is_awaiting esc.phase
    then (if str_eq esc.proposed_action ""
        then none
        else some (record esc { phase = approved; approved_by = by; approved_at = some now }))
    else none

-- The escalation with its rejection, if it may be rejected.
unfoldable pub reject : String → Escalation → Option Escalation
reject reason esc =
    if is_terminal_phase esc.phase
    then none
    else some (record esc { phase = rejected; rejection_reason = reason })

-- The update, and the exit code.
unfoldable pub write : Shell → Option Escalation → Exit
write sh none = record { code = 1; written = none }
write sh (some esc) = record { code = if sh.update_status esc then 0 else 1; written = some esc }

fetch : Shell → Parsed → Option Escalation
fetch sh p = if sh.is_connected then sh.get p.name p.namespace else none

-- A text, or another if it is empty.
abbrev or_else : String → String → String
or_else s other = if str_eq s "" then other else s

unfoldable pub run_approve : Shell → List String → Exit
unfolding fetch
run_approve sh args = elim (common_flags args "by") [
  | none ↦ record { code = 2; written = none }
  | some p ↦ elim (fetch sh p) [
    | none ↦ record { code = 1; written = none }
    | some esc ↦ write sh (approve (or_else p.extra (current_user sh)) sh.now esc)
  ]
]

unfoldable pub run_reject : Shell → List String → Exit
unfolding fetch
run_reject sh args = elim (common_flags args "reason") [
  | none ↦ record { code = 2; written = none }
  | some p ↦ elim (fetch sh p) [
    | none ↦ record { code = 1; written = none }
    | some esc ↦ write sh (reject (or_else p.extra "rejected via kubectl-claw") esc)
  ]
]

-- The first argument chooses the command; a wrong one exits with 2.
unfoldable pub main : Shell → List String → Exit
main sh List.[] = record { code = 2; written = none }
main sh (List.◌∷◌ cmd args) =
    if str_eq cmd "approve"
    then run_approve sh args
    else (if str_eq cmd "reject"
        then run_reject sh args
        else (if str_eq cmd "-h"
            then (record { code = 0; written = none })
            else (if str_eq cmd "--help"
                then (record { code = 0; written = none })
                else (if str_eq cmd "help"
                    then (record { code = 0; written = none })
                    else (record { code = 2; written = none })))))
