-- ===== src/Controller/Ops/Kinds.antt =====
-- The kinds of signals that the pods give, and the rules that they can reach:
-- internal/controller/clawops_signals.go, internal/rules/engine.go and
-- internal/controller/clawops_controller.go.
use mathlib.Core.Path.{subst}
use k8s4claw.Base.{
  ℕ, ◌≡◌, refl, sym, String, true, ◌⊎◌, inl, inr, Option, none, some, List, [], ◌∷◌, All,
  All-append, All-keep, All-constant, Bool-cases, str_eq, eq_iff, arith, not,
}
use k8s4claw.Rules.Types.{Signal, Rule, TriggerType, high}
use k8s4claw.Rules.Engine.{Engine, rule_matches}
use k8s4claw.Rules.Engine.Match.{match_highest_priority_best}
use k8s4claw.Rules.Engine.Picked.{match_highest_priority-All}
use k8s4claw.Controller.Ops.Types.{ContainerStatus, Pod, Platform, Cluster, Ops, Claw, Escalation}
use k8s4claw.Controller.Ops.{deduplicate_signals, is_active_type}
use k8s4claw.Controller.Ops.Signals.{
  oom_killed, crash_loop, evicted, has_reason, container_signals, containers_signals, is_evicted,
  extract_pod_signals, collect_signals,
}
use k8s4claw.Controller.Ops.Reconciled.{Picks, new_signals}

-- The kinds that a pod's status can show.
abbrev pub IsPodKind : TriggerType → Type 0
IsPodKind t = (t ≡ oom_killed) ⊎ (t ≡ crash_loop) ⊎ (t ≡ evicted)

abbrev FromPod : Signal → Type 0
FromPod s = IsPodKind s.type × (s.severity ≡ high)

module _ (p : Platform) where
  container-FromPod : (cs : ContainerStatus) → All FromPod (container_signals p cs)
  unfolding container_signals
  container-FromPod cs = elim (Bool-cases (has_reason "OOMKilled" cs.last_terminated)) [
    | inl oom ↦ rw (oom, container_signals, All) ((inl refl, refl), tt)
    | inr fine ↦ elim (Bool-cases (has_reason "CrashLoopBackOff" cs.waiting)) [
      | inl loop ↦ rw (fine, container_signals, loop, All) ((inr (inl refl), refl), tt)
      | inr ready ↦ rw (fine, container_signals, ready, All) tt
    ]
  ]

  containers-FromPod : (css : List ContainerStatus) → All FromPod (containers_signals p css)
  unfolding containers_signals
  containers-FromPod [] = tt
  containers-FromPod (cs ∷ css) =
      All-append FromPod (container_signals p cs) (containers_signals p css) (container-FromPod cs)
        (containers-FromPod css)

  pod-FromPod : (pod : Pod) → All FromPod (extract_pod_signals p pod)
  unfolding extract_pod_signals
  pod-FromPod pod = elim (Bool-cases (is_evicted pod)) [
    | inl gone ↦ rw (gone, extract_pod_signals, All) ((inr (inr refl), refl), tt)
    | inr here ↦ rw (here, extract_pod_signals) (containers-FromPod pod.container_statuses)
  ]

  collect_signals-FromPod : (pods : List Pod) → All FromPod (collect_signals p pods)
  unfolding collect_signals
  collect_signals-FromPod [] = tt
  collect_signals-FromPod (pod ∷ pods) =
      All-append FromPod (extract_pod_signals p pod) (collect_signals p pods) (pod-FromPod pod)
        (collect_signals-FromPod pods)

deduplicate-All {κ} :
    (Good : Signal → Type κ) (claw : Claw) (listed : Option (List Escalation)) (sigs : List Signal)
    → All Good sigs
    → All Good (deduplicate_signals claw listed sigs)
unfolding deduplicate_signals
deduplicate-All Good claw none sigs h = h
deduplicate-All Good claw (some escs) sigs h =
    All-keep Good (λ s. not (is_active_type claw escs s.type)) sigs h

matched :
    (e : Engine) (now : ℕ) (claw : String) (rule : Rule) (sig : Signal)
    → rule_matches e now claw rule sig ≡ true
    → rule.match.signal_type ≡ sig.type
unfolding rule_matches
matched e now claw rule sig hit = elim (Bool-cases (str_eq rule.match.signal_type sig.type)) [
  | inl eq ↦ (eq_iff rule.match.signal_type sig.type).0 eq
  | inr ne ↦ absurd (ground (arith, rw (ne, rule_matches) at hit))
]

-- The controller picks a rule only for one of the three kinds of signals that it reads off the pods,
-- and all of them have high severity. So a rule for another kind, as the built-in one for `HighCPU`,
-- is never executed.
picked_kinds :
    (p : Platform) (w : Cluster) (claw : Claw) (ops : Ops) (sig : Signal) (rule : Rule)
    → Picks p w claw ops sig rule
    → IsPodKind rule.match.signal_type × (sig.severity ≡ high)
picked_kinds p w claw ops sig rule (pods, listed, free, picked) =
    let sigs = new_signals p w claw pods in
    let from =
      (match_highest_priority-All {0, 0} ops.rule_engine w.now claw.name FromPod (λ r. Unit) sigs
        sig rule picked
        (deduplicate-All FromPod claw w.listed_for_dedup (collect_signals p pods)
          (collect_signals-FromPod p pods))
        (All-constant (λ r. Unit) (λ r. tt) ops.rule_engine.rules)).0 in
    let hit =
      (match_highest_priority_best ops.rule_engine w.now claw.name sigs sig rule picked).0 in
    (subst IsPodKind (sym (matched ops.rule_engine w.now claw.name rule sig hit)) from.0, from.1)
