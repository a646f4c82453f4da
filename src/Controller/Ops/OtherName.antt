-- ===== src/Controller/Ops/OtherName.antt =====
-- What a reconciliation of a claw leaves of the other names
-- (internal/controller/clawops_controller.go).
use k8s4claw.Base.{
  ◌≡◌, refl, ap, ◌∙◌, String, Bool, true, false, inl, inr, Option, none, some, List, [], ◌∷◌,
  str_eq, Option-cases, All-constant,
}
use k8s4claw.Rules.Types.{Signal, Rule}
use k8s4claw.Rules.Engine.{match_highest_priority}
use k8s4claw.Controller.Ops.Types.{Ops, Claw, Platform, Cluster, delete_escalation, Outcome}
use k8s4claw.Controller.Ops.{
  actions_of, prune_actions, is_rate_limited, record_action, auto_execute, is_expired, handle_match,
  handle_limited, handle_signals, handle_pods, reconcile_claw, claw_after, new_escalation,
}
use k8s4claw.Controller.Ops.Calls.{Executes}
use k8s4claw.Controller.Ops.Reconciled.{
  new_signals, Obligations, reconcile_claw-All, handle_pods-All,
}
use k8s4claw.Controller.Ops.RateLimit.{same}
use k8s4claw.Controller.Ops.Audits.{
  actions_prune_other, actions_record_other, Silent, audits-Silent, every,
}
use k8s4claw.Controller.Ops.Ran.{Ran, auto_execute-Ran}
use k8s4claw.Controller.Ops.OwnName.{Steps}

-- A reconciliation of a claw of another name leaves the times of a name.
abbrev pub Apart : String → Ops → Outcome → Type 0
Apart name ops out = (out.ops.config ≡ ops.config) × (actions_of name out.ops ≡ actions_of name ops)

Ran→Apart :
    (p : Platform) (w : Cluster) (claw : Claw) (ops : Ops) (rule : Rule) (name : String)
    (out : Outcome)
    → str_eq claw.name name ≡ false
    → Ran p w claw ops rule out
    → Apart name ops out
unfolding record_action actions_of
Ran→Apart p w claw ops rule name out other (inl (same_ops, none_ran)) =
    (ap (λ o. o.config) same_ops, ap (λ o. actions_of name o) same_ops)
Ran→Apart p w claw ops rule name out other (inr (ran_ops, one_ran)) = (
  ap (λ o. o.config) ran_ops,
  ap (λ o. actions_of name o) ran_ops ∙ actions_record_other w.now claw.name name ops other,
)

handle_match-Apart :
    (p : Platform) (w : Cluster) (claw : Claw) (ops : Ops) (name : String) (sigs : List Signal)
    (picked : Option (Signal × Rule))
    → str_eq claw.name name ≡ false
    → Apart name ops (handle_match p w claw ops sigs picked)
unfolding handle_match
handle_match-Apart p w claw ops name sigs none other = (refl, refl)
handle_match-Apart p w claw ops name sigs (some (sig, rule)) other =
    Ran→Apart p w claw ops rule name (auto_execute p w claw ops sig rule) other
      (auto_execute-Ran p w claw ops sig rule)

handle_limited-Apart :
    (p : Platform) (w : Cluster) (claw : Claw) (ops : Ops) (name : String) (sigs : List Signal)
    (limited : Bool)
    → str_eq claw.name name ≡ false
    → Apart name ops (handle_limited p w claw (prune_actions w.now claw.name ops) sigs limited)
unfolding handle_limited prune_actions
handle_limited-Apart p w claw ops name sigs true other =
    (refl, actions_prune_other w.now claw.name name ops other)
handle_limited-Apart p w claw ops name sigs false other =
    let ops' = prune_actions w.now claw.name ops in
    let rest =
      handle_match-Apart p w claw ops' name sigs
        (match_highest_priority ops'.rule_engine w.now claw.name sigs) other in
    (rest.0, rest.1 ∙ actions_prune_other w.now claw.name name ops other)

handle_signals-Apart :
    (p : Platform) (w : Cluster) (claw : Claw) (ops : Ops) (name : String) (sigs : List Signal)
    → str_eq claw.name name ≡ false
    → Apart name ops (handle_signals p w claw ops sigs)
unfolding handle_signals
handle_signals-Apart p w claw ops name [] other = (refl, refl)
handle_signals-Apart p w claw ops name (sig ∷ sigs) other =
    handle_limited-Apart p w claw ops name (sig ∷ sigs) (is_rate_limited w.now claw.name ops) other

handle_pods-Apart :
    (p : Platform) (w : Cluster) (claw : Claw) (ops : Ops) (name : String)
    → str_eq claw.name name ≡ false
    → Apart name ops (handle_pods p w claw ops)
unfolding handle_pods
handle_pods-Apart p w claw ops name other = elim (Option-cases w.pods) [
  | inl lost ↦ rw (lost, handle_pods) (refl, refl)
  | inr (pods, listed) ↦
      rw (listed, handle_pods)
        (handle_signals-Apart p w claw ops name (new_signals p w claw pods) other)
]

-- No call of a reconciliation of another claw is an action on the name.
other_name-Silent :
    (p : Platform) (w : Cluster) (claw : Claw) (ops : Ops) (name : String)
    → str_eq claw.name name ≡ false
    → Obligations (Silent w name) p w ops claw
unfolding Silent new_escalation
other_name-Silent p w claw ops name other = record {
  events = λ r. refl;
  approvals = λ escs listed.
      All-constant (Executes (Silent w name) w claw) (λ esc m due. (refl, refl)) escs;
  deletions = λ escs listed.
      All-constant
        (λ esc. is_expired w.now ops claw esc ≡ true → Silent w name (delete_escalation esc))
        (λ esc due. refl) escs;
  escalations = λ pods o listed. every w name claw o (new_signals p w claw pods);
  execution = λ sig rule o picks. (refl, (λ c. rw other refl), (refl, λ c. refl));
}

pub other_name-Steps :
    (p : Platform) (w : Cluster) (claw : Claw) (ops : Ops) (name : String)
    → str_eq claw.name name ≡ false
    → Steps w name ops (reconcile_claw p w ops claw)
unfolding reconcile_claw
other_name-Steps p w claw ops name other =
    let apart = handle_pods-Apart p w (claw_after w claw) ops name other in
    (
      apart.0,
      same apart.1 (
          audits-Silent w name (reconcile_claw p w ops claw).calls (
            reconcile_claw-All (Silent w name) p w ops claw
              (other_name-Silent p w claw ops name other)
              (handle_pods-All (Silent w name) p w ops (claw_after w claw)
                (other_name-Silent p w (claw_after w claw) ops name other)))),
    )
