-- ===== src/Controller/Ops/OwnName.antt =====
-- What a reconciliation of a claw records for the name of the claw
-- (internal/controller/clawops_controller.go).
use k8s4claw.Base.{
  ◌≡◌, refl, ap, ◌∙◌, String, Bool, true, false, ◌⊎◌, inl, inr, Option, none, some, List, [], ◌∷◌,
  ◌++◌, keep, if◌then◌else◌, Option-cases, if-All,
}
use k8s4claw.Rules.Types.{Signal, Rule}
use k8s4claw.Rules.Engine.{match_highest_priority}
use k8s4claw.Controller.Ops.Types.{Ops, Claw, Platform, Cluster, Call, Outcome}
use k8s4claw.Controller.Ops.{
  actions_of, prune_actions, is_rate_limited, record_action, escalate, escalate_all, auto_execute,
  process_approved_escalations, gc_expired_escalations, handle_match, handle_limited,
  handle_signals, handle_pods, reconcile_claw, claw_after, is_other,
}
use k8s4claw.Controller.Ops.Calls.{escalate-All}
use k8s4claw.Controller.Ops.Reconciled.{new_signals}
use k8s4claw.Controller.Ops.RateLimit.{Step, same, pruned, counted, audits}
use k8s4claw.Controller.Ops.Audits.{
  actions_prune, actions_record, Silent, audits-Silent, every, approved_silent, gc_silent,
  escalate_silent, audits_sum, audits_behind,
}
use k8s4claw.Controller.Ops.Ran.{Ran, auto_execute-Ran}

-- What a part of a reconciliation of a claw of the name does to the times of that name.
abbrev pub Steps : Cluster → String → Ops → Outcome → Type 0
Steps w name ops out =
    (out.ops.config ≡ ops.config)
    × Step w.now (actions_of name ops) (actions_of name out.ops)
        ops.config.max_actions_per_claw_per_hour (audits w name out.calls)

-- The same on the times that the rate limit has left.
abbrev pub Kept : Cluster → String → Ops → Outcome → Type 0
Kept w name ops out =
    (out.ops.config ≡ ops.config)
    × (((actions_of name out.ops ≡ actions_of name ops) × (audits w name out.calls ≡ 0))
        ⊎ ((actions_of name out.ops ≡ actions_of name ops ++ (w.now ∷ []))
            × (audits w name out.calls ≡ 1)))

tail_silent :
    (w : Cluster) (claw : Claw) (ops : Ops) (sig : Signal) (sigs : List Signal) (failed : Bool)
    → audits w claw.name
        ((if failed then (escalate w claw ops sig).calls else []) ++ escalate_all w claw ops sigs)
      ≡ 0
tail_silent w claw ops sig sigs failed =
    audits_sum w claw.name 0 0 (if failed then (escalate w claw ops sig).calls else [])
      (escalate_all w claw ops sigs)
      (audits-Silent w claw.name (if failed then (escalate w claw ops sig).calls else []) (
        if-All (Silent w claw.name) failed (escalate w claw ops sig).calls []
          (escalate-All (Silent w claw.name) w claw ops sig
            (every w claw.name claw ops (sig ∷ [])).0)
          tt))
      (escalate_silent w claw.name claw ops sigs)

Ran→Kept :
    (p : Platform) (w : Cluster) (claw : Claw) (ops : Ops) (rule : Rule) (out : Outcome)
    (after : List Call)
    → Ran p w claw ops rule out
    → audits w claw.name after ≡ 0
    → Kept w claw.name ops (record { calls = out.calls ++ after; ops = out.ops; is_error = false })
unfolding record_action actions_of
Ran→Kept p w claw ops rule out after (inl (same_ops, none_ran)) quiet = (
  ap (λ o. o.config) same_ops,
  inl (
    ap (λ o. actions_of claw.name o) same_ops,
    audits_sum w claw.name 0 0 out.calls after none_ran quiet,
  ),
)
Ran→Kept p w claw ops rule out after (inr (ran_ops, one_ran)) quiet = (
  ap (λ o. o.config) ran_ops,
  inr (
    ap (λ o. actions_of claw.name o) ran_ops ∙ actions_record w.now claw.name ops,
    audits_sum w claw.name 1 0 out.calls after one_ran quiet,
  ),
)

handle_match-Kept :
    (p : Platform) (w : Cluster) (claw : Claw) (ops : Ops) (sigs : List Signal)
    (picked : Option (Signal × Rule))
    → Kept w claw.name ops (handle_match p w claw ops sigs picked)
unfolding handle_match
handle_match-Kept p w claw ops sigs none =
    (refl, inl (refl, escalate_silent w claw.name claw ops sigs))
handle_match-Kept p w claw ops sigs (some (sig, rule)) =
    let ran = auto_execute p w claw ops sig rule in
    Ran→Kept p w claw ops rule ran
      ((if ran.is_error then (escalate w claw ran.ops sig).calls else [])
        ++ escalate_all w claw ran.ops (keep (is_other sig) sigs))
      (auto_execute-Ran p w claw ops sig rule)
      (tail_silent w claw ran.ops sig (keep (is_other sig) sigs) ran.is_error)

Kept→Steps :
    (w : Cluster) (name : String) (ops : Ops) (out : Outcome)
    → is_rate_limited w.now name ops ≡ false
    → Kept w name (prune_actions w.now name ops) out
    → Steps w name ops out
unfolding is_rate_limited prune_actions
Kept→Steps w name ops out free (config, inl (times, quiet)) =
    (config, pruned (times ∙ actions_prune w.now name ops) quiet)
Kept→Steps w name ops out free (config, inr (times, once)) = (
  config,
  counted (times ∙ ap (λ ts. ts ++ (w.now ∷ [])) (actions_prune w.now name ops)) once free,
)

handle_limited-Steps :
    (p : Platform) (w : Cluster) (claw : Claw) (ops : Ops) (sigs : List Signal) (limited : Bool)
    → is_rate_limited w.now claw.name ops ≡ limited
    → Steps w claw.name ops
        (handle_limited p w claw (prune_actions w.now claw.name ops) sigs limited)
unfolding handle_limited prune_actions
handle_limited-Steps p w claw ops sigs true q = (
  refl,
  pruned (actions_prune w.now claw.name ops)
      (escalate_silent w claw.name claw (prune_actions w.now claw.name ops) sigs),
)
handle_limited-Steps p w claw ops sigs false q =
    let ops' = prune_actions w.now claw.name ops in
    Kept→Steps w claw.name ops
      (handle_match p w claw ops' sigs
        (match_highest_priority ops'.rule_engine w.now claw.name sigs))
      q
      (handle_match-Kept p w claw ops' sigs
        (match_highest_priority ops'.rule_engine w.now claw.name sigs))

handle_signals-Steps :
    (p : Platform) (w : Cluster) (claw : Claw) (ops : Ops) (sigs : List Signal)
    → Steps w claw.name ops (handle_signals p w claw ops sigs)
unfolding handle_signals
handle_signals-Steps p w claw ops [] = (refl, same refl refl)
handle_signals-Steps p w claw ops (sig ∷ sigs) =
    handle_limited-Steps p w claw ops (sig ∷ sigs) (is_rate_limited w.now claw.name ops) refl

handle_pods-Steps :
    (p : Platform) (w : Cluster) (claw : Claw) (ops : Ops)
    → Steps w claw.name ops (handle_pods p w claw ops)
unfolding handle_pods
handle_pods-Steps p w claw ops = elim (Option-cases w.pods) [
  | inl lost ↦ rw (lost, handle_pods) (refl, same refl refl)
  | inr (pods, listed) ↦
      rw (listed, handle_pods) (handle_signals-Steps p w claw ops (new_signals p w claw pods))
]

reconcile_claw-audits :
    (p : Platform) (w : Cluster) (claw : Claw) (ops : Ops) (name : String)
    → audits w name (reconcile_claw p w ops claw).calls
      ≡ audits w name (handle_pods p w (claw_after w claw) ops).calls
unfolding reconcile_claw
reconcile_claw-audits p w claw ops name =
    let rest = handle_pods p w (claw_after w claw) ops in
    let gc = gc_expired_escalations w ops claw in
    audits_behind w name (process_approved_escalations w claw).calls (gc.calls ++ rest.calls)
      (approved_silent w name claw)
    ∙ audits_behind w name gc.calls rest.calls (gc_silent w name ops claw)

pub own_name-Steps :
    (p : Platform) (w : Cluster) (claw : Claw) (ops : Ops)
    → Steps w claw.name ops (reconcile_claw p w ops claw)
unfolding reconcile_claw
own_name-Steps p w claw ops =
    let steps = handle_pods-Steps p w (claw_after w claw) ops in
    (steps.0, rw (reconcile_claw-audits p w claw ops claw.name) steps.1)
