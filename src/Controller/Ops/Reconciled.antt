-- ===== src/Controller/Ops/Reconciled.antt =====
-- What holds of every call of a whole reconciliation, from what holds of its parts
-- (internal/controller/clawops_controller.go).
use k8s4claw.Base.{
  ◌≡◌, refl, String, true, false, inl, inr, Option, none, some, List, [], ◌∷◌, ◌++◌, keep, All,
  All-append, All-keep, if-All, if◌then◌else◌, Bool-cases, Option-cases,
}
use k8s4claw.Rules.Types.{Signal, Rule}
use k8s4claw.Rules.Engine.{match_highest_priority}
use k8s4claw.Controller.Ops.Types.{
  Escalation, Ops, Claw, Pod, Platform, Cluster, Call, delete_escalation, event,
}
use k8s4claw.Controller.Ops.Signals.{collect_signals}
use k8s4claw.Controller.Ops.{
  escalate, escalate_all, auto_execute, process_approved_escalations, gc_expired_escalations,
  is_expired, is_other, is_rate_limited, prune_actions, deduplicate_signals, handle_match,
  handle_limited, handle_signals, handle_pods, claw_after, reconcile_claw,
}
use k8s4claw.Controller.Ops.Calls.{
  Escalates, Executes, Runs, escalate-All, escalate_all-All, process_approved-All, gc_expired-All,
  auto_execute-All,
}

-- The signals of the pods for which there is no escalation yet.
abbrev pub new_signals : Platform → Cluster → Claw → List Pod → List Signal
new_signals p w claw pods = deduplicate_signals claw w.listed_for_dedup (collect_signals p pods)

-- The engine picks the rule for one of the new signals, within the budget.
abbrev pub Picks : Platform → Cluster → Claw → Ops → Signal → Rule → Type 0
Picks p w claw ops sig rule =
    (pods : List Pod) × (w.pods ≡ some pods)
    × (is_rate_limited w.now claw.name ops ≡ false)
    × (match_highest_priority ops.rule_engine w.now claw.name (new_signals p w claw pods)
        ≡ some (sig, rule))

-- What is to be shown of the calls of a reconciliation of the claw.
pub record Obligations (Good : Call → Type 0) (p : Platform) (w : Cluster) (ops : Ops) (claw : Claw)
    : Type 0 where
  pub events : (r : String) → Good (event r)
  pub approvals :
      (escs : List Escalation) → w.listed_for_approval ≡ some escs → All (Executes Good w claw) escs
  pub deletions :
      (escs : List Escalation)
      → w.listed_for_gc ≡ some escs
      → All (λ esc. is_expired w.now ops claw esc ≡ true → Good (delete_escalation esc)) escs
  pub escalations :
      (pods : List Pod) (o : Ops)
      → w.pods ≡ some pods
      → All (Escalates Good w claw o) (new_signals p w claw pods)
  pub execution :
      (sig : Signal) (rule : Rule) (o : Ops)
      → Picks p w claw ops sig rule
      → Runs Good w p claw o sig rule

module _ (Good : Call → Type 0) (p : Platform) (w : Cluster) (ops : Ops) (claw : Claw) where
  handle_match-All :
      (sigs : List Signal) (o : Ops) (picked : Option (Signal × Rule))
      → ((r : String) → Good (event r))
      → ((o : Ops) → All (Escalates Good w claw o) sigs)
      → ((sig : Signal) (rule : Rule) (o : Ops)
          → picked ≡ some (sig, rule)
          → Runs Good w p claw o sig rule)
      → All Good (handle_match p w claw o sigs picked).calls
  unfolding handle_match
  handle_match-All sigs o none ev esc run = escalate_all-All Good w claw o sigs (esc o)
  handle_match-All sigs o (some (sig, rule)) ev esc run =
      let ran = auto_execute p w claw o sig rule in
      All-append Good ran.calls
        ((if ran.is_error then (escalate w claw ran.ops sig).calls else [])
          ++ escalate_all w claw ran.ops (keep (is_other sig) sigs))
        (auto_execute-All Good w p claw o sig rule ev (run sig rule o refl))
        (All-append Good (if ran.is_error then (escalate w claw ran.ops sig).calls else [])
          (escalate_all w claw ran.ops (keep (is_other sig) sigs))
          (if-All Good ran.is_error (escalate w claw ran.ops sig).calls []
            (escalate-All Good w claw ran.ops sig (run sig rule ran.ops refl).2) tt)
          (escalate_all-All Good w claw ran.ops (keep (is_other sig) sigs)
            (All-keep (Escalates Good w claw ran.ops) (is_other sig) sigs (esc ran.ops))))

  handle_signals-All :
      (sigs : List Signal)
      → ((r : String) → Good (event r))
      → ((o : Ops) → All (Escalates Good w claw o) sigs)
      → ((sig : Signal) (rule : Rule) (o : Ops)
          → is_rate_limited w.now claw.name ops ≡ false
          → match_highest_priority ops.rule_engine w.now claw.name sigs ≡ some (sig, rule)
          → Runs Good w p claw o sig rule)
      → All Good (handle_signals p w claw ops sigs).calls
  unfolding handle_signals handle_limited prune_actions
  handle_signals-All [] ev esc run = tt
  handle_signals-All (s ∷ sigs) ev esc run =
      elim (Bool-cases (is_rate_limited w.now claw.name ops)) [
        | inl limited ↦ rw limited (
            escalate_all-All Good w claw (prune_actions w.now claw.name ops) (s ∷ sigs)
              (esc (prune_actions w.now claw.name ops)))
        | inr free ↦ rw free (
            handle_match-All (s ∷ sigs) (prune_actions w.now claw.name ops)
              (match_highest_priority ops.rule_engine w.now claw.name (s ∷ sigs)) ev esc
              (λ sig rule o q. run sig rule o free q))
      ]

  pub handle_pods-All : Obligations Good p w ops claw → All Good (handle_pods p w claw ops).calls
  unfolding handle_pods
  handle_pods-All ob = elim (Option-cases w.pods) [
    | inl lost ↦ rw (lost, handle_pods, All) tt
    | inr (pods, listed) ↦
        rw (listed, handle_pods)
          (handle_signals-All (new_signals p w claw pods) ob.events
            (λ o. ob.escalations pods o listed)
            (λ sig rule o free q. ob.execution sig rule o (pods, listed, free, q)))
  ]

  approvals-All :
      Obligations Good p w ops claw → All Good (process_approved_escalations w claw).calls
  unfolding process_approved_escalations
  approvals-All ob = elim (Option-cases w.listed_for_approval) [
    | inl lost ↦ rw (lost, process_approved_escalations, All) tt
    | inr (escs, listed) ↦
        rw (listed, process_approved_escalations)
          (process_approved-All Good w claw escs ob.events (ob.approvals escs listed))
  ]

  deletions-All : Obligations Good p w ops claw → All Good (gc_expired_escalations w ops claw).calls
  unfolding gc_expired_escalations
  deletions-All ob = elim (Option-cases w.listed_for_gc) [
    | inl lost ↦ rw (lost, gc_expired_escalations, All) tt
    | inr (escs, listed) ↦
        rw (listed, gc_expired_escalations)
          (gc_expired-All Good w ops claw escs (ob.deletions escs listed))
  ]

  pub reconcile_claw-All :
      Obligations Good p w ops claw
      → All Good (handle_pods p w (claw_after w claw) ops).calls
      → All Good (reconcile_claw p w ops claw).calls
  unfolding reconcile_claw
  reconcile_claw-All ob pods =
      let rest = handle_pods p w (claw_after w claw) ops in
      let gc = gc_expired_escalations w ops claw in
      All-append Good (process_approved_escalations w claw).calls (gc.calls ++ rest.calls)
        (approvals-All ob) (All-append Good gc.calls rest.calls (deletions-All ob) pods)
