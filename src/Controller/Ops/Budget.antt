-- ===== src/Controller/Ops/Budget.antt =====
-- What one reconciliation records of the actions of a claw
-- (internal/controller/clawops_controller.go).
use mathlib.Core.Path.{subst}
use k8s4claw.Base.{◌≡◌, refl, String, inl, inr, str_eq, Bool-cases, eq_iff}
use k8s4claw.Controller.Ops.Types.{Ops, Claw, Platform, Cluster, Got, not_found, get_error, found}
use k8s4claw.Controller.Ops.{actions_of, reconcile_claw, reconcile, reconcile_got}
use k8s4claw.Controller.Ops.RateLimit.{Step, same, audits}
use k8s4claw.Controller.Ops.OwnName.{Steps, own_name-Steps}
use k8s4claw.Controller.Ops.OtherName.{other_name-Steps}

claw_Steps :
    (p : Platform) (w : Cluster) (claw : Claw) (ops : Ops) (name : String)
    → Steps w name ops (reconcile_claw p w ops claw)
claw_Steps p w claw ops name = elim (Bool-cases (str_eq claw.name name)) [
  | inr other ↦ other_name-Steps p w claw ops name other
  | inl own ↦
      subst (λ n. Steps w n ops (reconcile_claw p w ops claw)) ((eq_iff claw.name name).0 own)
        (own_name-Steps p w claw ops)
]

got_Steps :
    (p : Platform) (w : Cluster) (ops : Ops) (name : String) (got : Got)
    → Steps w name ops (reconcile_got p w ops got)
unfolding reconcile_got
got_Steps p w ops name not_found = (refl, same refl refl)
got_Steps p w ops name get_error = (refl, same refl refl)
got_Steps p w ops name (found claw) = claw_Steps p w claw ops name

-- A reconciliation leaves the limit as it is, and does one of three things to the times.
pub reconcile-Steps :
    (p : Platform) (w : Cluster) (ops : Ops) (name : String)
    → ((reconcile p w ops).ops.config ≡ ops.config)
      × Step w.now
          (actions_of name ops)
          (actions_of name (reconcile p w ops).ops)
          ops.config.max_actions_per_claw_per_hour
          (audits w name (reconcile p w ops).calls)
unfolding reconcile
reconcile-Steps p w ops name = got_Steps p w ops name w.get
