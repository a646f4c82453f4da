-- ===== src/Controller/Ops/HourlyLimit.antt =====
-- The rate limit over any sequence of reconciliations
-- (internal/controller/clawops_controller.go).
use mathlib.Core.Path.{subst}
use k8s4claw.Base.{
  ℕ, ◌≤◌, ◌≡◌, refl, ap, ◌∙◌, String, List, [], ◌∷◌, ◌++◌, arith, length, keep, replicate, lookup,
}
use k8s4claw.Controller.Ops.Types.{Ops, Platform, Cluster, init_action_counts}
use k8s4claw.Controller.Ops.{actions_of, or_empty, reconcile}
use k8s4claw.Controller.Ops.RateLimit.{
  Step, Within, Step-Within, audits, action_times, in_hour, IsMonotone,
}
use k8s4claw.Controller.Ops.Budget.{reconcile-Steps}

runs-Within :
    (p : Platform) (name : String) (ws : List Cluster) (last t max : ℕ) (ops : Ops) (past : List ℕ)
    → IsMonotone last ws
    → ops.config.max_actions_per_claw_per_hour ≡ max
    → Within last max (actions_of name ops) past
    → length (keep (in_hour t) (action_times p name ws ops past)) ≤ max
runs-Within p name [] last t max ops past mono limit inv = inv.bounded t
runs-Within p name (w ∷ ws) last t max ops past (le, mono) limit inv =
    let out = reconcile p w ops in
    let steps = reconcile-Steps p w ops name in
    runs-Within p name ws w.now t max out.ops (replicate (audits w name out.calls) w.now ++ past)
      mono (ap (λ c. c.max_actions_per_claw_per_hour) steps.0 ∙ limit)
      (Step-Within last w.now max (audits w name out.calls) (actions_of name ops)
        (actions_of name out.ops) past le
        (subst
          (λ m.
            Step w.now (actions_of name ops) (actions_of name out.ops) m (audits w name out.calls))
          limit steps.1)
        inv)

-- The rate limit: over any sequence of reconciliations, of any claws and with any answers of the
-- cluster, whose clock does not go back, the actions that are recorded for a claw's name within any
-- hour are never more than the limit.
pub rate_limit_holds :
    (p : Platform) (name : String) (ws : List Cluster) (ops : Ops) (t : ℕ)
    → IsMonotone 0 ws
    → length (keep (in_hour t) (action_times p name ws (init_action_counts ops) []))
      ≤ ops.config.max_actions_per_claw_per_hour
unfolding init_action_counts actions_of or_empty lookup
rate_limit_holds p name ws ops t mono =
    runs-Within p name ws 0 t ops.config.max_actions_per_claw_per_hour (init_action_counts ops) []
      mono refl (record { agrees = λ t later. refl; bounded = λ t. omega arith })
