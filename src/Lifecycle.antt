-- ===== src/Lifecycle.antt =====
-- The life of an escalation between its writers: the companion (cmd/claw4k8s/watcher.go), the human
-- with the command line tool (cmd/kubectl-claw/main.go) and the operations controller
-- (internal/controller/clawops_controller.go). A status update carries the version of the object
-- that was read, so the server takes it only if nothing was written in between: each step starts
-- from the object that the one before has left.
pub mod Progress
pub mod Approved
pub mod Stuck
pub mod Sources
mod Tests
use k8s4claw.Base.{ℕ, zero, suc, ◌≡◌, String, true, some}
use k8s4claw.Rules.Types.{Rule}
use k8s4claw.Controller.Ops.Types.{Escalation, Claw, Platform, is_pending, unset, pending}
use k8s4claw.Controller.Ops.{audited, is_due, executed_at_time}
use k8s4claw.Companion.Watcher.{begun, set_failed, proposed_by}
use k8s4claw.Cli.Approval.{approve, reject}

-- One write of the status: the controller's after the creation, the companion's, the human's, and the
-- controller's of an approved one. The second write of the companion starts from its first.
pub data Step : Escalation → Escalation → Type 0 where
  opens : (e : Escalation) → e.phase ≡ unset → Step e (record e { phase = pending })
  audits :
      (e : Escalation) (p : Platform) (now : ℕ) (claw : Claw) (rule : Rule)
      → e.phase ≡ unset
      → Step e (audited p now claw rule e)
  begins : (e : Escalation) → is_pending e.phase ≡ true → Step e (begun e)
  ends :
      (e : Escalation) (analysis action : String)
      → Step (begun e) (proposed_by analysis action (begun e))
  fails : (e : Escalation) (reason : String) → Step (begun e) (set_failed reason (begun e))
  approves : (e e' : Escalation) (by : String) (now : ℕ) → approve by now e ≡ some e' → Step e e'
  rejects : (e e' : Escalation) (reason : String) → reject reason e ≡ some e' → Step e e'
  executes :
      (e : Escalation) (claw : Claw) (now : ℕ)
      → is_due claw e ≡ true
      → Step e (executed_at_time now e)

-- A number of writes after one another.
pub data Steps : ℕ → Escalation → Escalation → Type 0 where
  here : (e : Escalation) → Steps zero e e
  then : (n : ℕ) (e e' e'' : Escalation) → Steps n e e' → Step e' e'' → Steps (suc n) e e''
