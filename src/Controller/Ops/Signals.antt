-- ===== src/Controller/Ops/Signals.antt =====
-- The signals of a pod: internal/controller/clawops_signals.go.
use k8s4claw.Base.{
  ◌++◌, ◌<>◌, ℕ, String, Bool, false, ◌&&◌, Option, none, some, List, [], ◌∷◌, if◌then◌else◌,
  str_eq,
}
use k8s4claw.Rules.Types.{Signal, TriggerType, high}
use k8s4claw.Controller.Ops.Types.{ContainerStatus, Pod, Platform}

abbrev pub oom_killed : TriggerType
oom_killed = "OOMKilled"

abbrev pub crash_loop : TriggerType
crash_loop = "CrashLoop"

abbrev pub evicted : TriggerType
evicted = "Evicted"

abbrev pod_signal : TriggerType → ℕ → String → Signal
pod_signal type count message = record {
  type = type;
  severity = high;
  count = count;
  message = message;
  source = "pod-status";
  raw = [];
}

unfoldable pub has_reason : String → Option String → Bool
has_reason wanted none = false
has_reason wanted (some reason) = str_eq reason wanted

-- One round of the loop.
unfoldable pub container_signals : Platform → ContainerStatus → List Signal
container_signals p cs =
    if has_reason "OOMKilled" cs.last_terminated
    then pod_signal oom_killed cs.restart_count (
        "Container "
        <> cs.name
        <> " OOMKilled (exit 137), restarts: "
        <> p.format_count cs.restart_count)
      ∷ []
    else (if has_reason "CrashLoopBackOff" cs.waiting
        then pod_signal crash_loop cs.restart_count (
            "Container "
            <> cs.name
            <> " in CrashLoopBackOff, restarts: "
            <> p.format_count cs.restart_count)
          ∷ []
        else [])

unfoldable pub containers_signals : Platform → List ContainerStatus → List Signal
containers_signals p [] = []
containers_signals p (cs ∷ statuses) = container_signals p cs ++ containers_signals p statuses

unfoldable pub is_evicted : Pod → Bool
is_evicted pod = str_eq pod.phase "Failed" && str_eq pod.reason "Evicted"

unfoldable pub extract_pod_signals : Platform → Pod → List Signal
extract_pod_signals p pod =
    if is_evicted pod
    then pod_signal evicted 1 ("Pod " <> pod.name <> " evicted: " <> pod.message) ∷ []
    else containers_signals p pod.container_statuses

-- `collectSignals`, on the pods that were listed.
unfoldable pub collect_signals : Platform → List Pod → List Signal
collect_signals p [] = []
collect_signals p (pod ∷ pods) = extract_pod_signals p pod ++ collect_signals p pods
