-- ===== src/Controller/Ops/Tests.antt =====
-- A claw with a pod that crashes again and again, two escalations, and the built-in rules.
use k8s4claw.Base.{
  ℕ, ◌*◌, ◌<>◌, ◌≤◌, ◌≡◌, refl, true, false, none, some, [], ◌∷◌, arith, length, keep, pos, lookup,
  ltb,
}
use k8s4claw.Rules.Types.{Signal, Rule, high, restart_pod, patch_resource, minute}
use k8s4claw.Rules.Builtin.{default_rules}
use k8s4claw.Controller.Intent.Types.{Codec, OpsIntent, World, ops_intent, is_allowed}
use k8s4claw.Controller.Intent.Types as Intents
use k8s4claw.Controller.Intent.{
  consume_and_execute_ops_intent, commit, clear_ops_intent_annotations, parse_ops_intent, guard,
  validate_intent, current_intent_gen,
}
use k8s4claw.Controller.Ops.Types.{
  EscalationPhase, Escalation, Ops, Claw, Pod, ContainerStatus, Platform, Cluster, found,
  default_claw_ops_config, hour, init_action_counts,
}
use k8s4claw.Controller.Ops.{
  rule_intent, gc_expired_escalations, rule_action_to_intent_action, patch_action,
}
use k8s4claw.Controller.Ops.RateLimit.{action_times, in_hour}
use k8s4claw.Controller.Ops.HourlyLimit.{rate_limit_holds}
use k8s4claw.Controller.Ops.Consumed.{targetless_rejected}
use k8s4claw.Controller.Ops.Expiry.{Deletes, gc_expired_escalations-Deletes}

abbrev claw : Claw
claw = record { name = "agent"; namespace = "default"; uid = "1"; annotations = [] }

abbrev container : ContainerStatus
container = record {
  name = "runtime";
  restart_count = 6;
  last_terminated = none;
  waiting = some "CrashLoopBackOff";
}

abbrev pod : Pod
pod = record {
  name = "agent-0";
  phase = "Running";
  reason = "";
  message = "";
  container_statuses = container ∷ [];
}

abbrev approved_esc : Escalation
approved_esc = record {
  name = "agent-ops-1";
  generate_name = "agent-ops-";
  namespace = "default";
  owner = "agent";
  owner_uid = "1";
  created = 0;
  claw_ref = "agent";
  trigger = record { type = "OOMKilled"; message = ""; first_seen = none; count = 3 };
  severity = high;
  ttl_seconds_after_finished = some (pos 60);
  phase = EscalationPhase.approved;
  matched_rule = "";
  analysis = "";
  proposed_action = "bump";
  executed_action = "";
  executed_at = none;
  signet_receipt = "";
  approved_by = "";
  approved_at = none;
  rejection_reason = "";
}

abbrev done_esc : Escalation
done_esc = record approved_esc { phase = EscalationPhase.rejected }

abbrev platform : Platform
platform = record { format_count = λ n. "n"; marshal = λ i. i.action; sign = λ r. none }

abbrev at : ℕ → Cluster
at now = record {
  now = now;
  get = found claw;
  listed_for_approval = some (approved_esc ∷ []);
  listed_for_gc = some (done_esc ∷ []);
  listed_for_dedup = some (approved_esc ∷ done_esc ∷ []);
  pods = some (pod ∷ []);
  patch = λ c. some [];
  create = λ e. some (record { name = "agent-ops-2"; created = now });
  update_status = λ e. true;
  delete = λ e. true;
}

abbrev ops : Ops
ops = record {
  config = default_claw_ops_config;
  rule_engine = record { rules = default_rules; cooldowns = [] };
  action_counts = [];
}

abbrev crash_rule : Rule
crash_rule = record {
  id = "crashloop-restart-pod";
  match = record { signal_type = "CrashLoop"; min_severity = high; min_count = 5 };
  action = record { type = restart_pod; params = ("strategy", "delete-oldest") ∷ [] };
  cooldown = 10 * minute;
}

abbrev crash : Signal
crash = record {
  type = "CrashLoop";
  severity = high;
  count = 6;
  message = "Container " <> "runtime" <> " in CrashLoopBackOff, restarts: " <> "n";
  source = "pod-status";
  raw = [];
}

rate_limit_holds_example :
    length (
      keep
        (in_hour (2 * hour))
        (action_times platform "agent" (at hour ∷ at (2 * hour) ∷ []) (init_action_counts ops) []))
    ≤ 5
rate_limit_holds_example =
    rate_limit_holds platform "agent" (at hour ∷ at (2 * hour) ∷ []) ops (2 * hour)
      (omega arith, (omega arith, tt))

gc_expired_escalations-Deletes_example :
    Deletes hour ops claw (done_esc ∷ []) (gc_expired_escalations (at hour) ops claw).calls
    × ((gc_expired_escalations (at hour) ops claw).is_error ≡ false)
gc_expired_escalations-Deletes_example =
    gc_expired_escalations-Deletes (at hour) ops claw (done_esc ∷ []) refl (λ esc. refl)

abbrev oom_rule : Rule
oom_rule = record {
  id = "oom-bump-memory";
  match = record { signal_type = "OOMKilled"; min_severity = high; min_count = 2 };
  action = record {
    type = patch_resource;
    params = ("field", "memory-limit") ∷ ("strategy", "multiply-1.5") ∷ ("max", "4Gi") ∷ [];
  };
  cooldown = 30 * minute;
}

abbrev codec : OpsIntent → Codec
codec i = record {
  Quantity = ℕ;
  zero_quantity = 0;
  parse_quantity = λ s. some 1;
  is_less = ltb;
  unmarshal = λ s. some i;
  parse_int = λ s. some (pos 5);
  parse_int32 = λ s. some (pos 5);
  format_int = λ n. "5";
}

abbrev world : World ℕ
world = record { list_pods = some []; delete_pod = λ p. true; patch = λ c. true; now = "now" }

abbrev object : Intents.Claw ℕ
object = record {
  annotations = (ops_intent, "bump-memory") ∷ [];
  replicas = none;
  resources = none;
}

targetless_rejected_example :
    let k = codec (rule_intent hour oom_rule) in
    (consume_and_execute_ops_intent k world object
      ≡ commit k world [] "OpsIntentRejected"
          (clear_ops_intent_annotations k object (rule_intent hour oom_rule).generation))
    × ((consume_and_execute_ops_intent k world object).claw.resources ≡ object.resources)
unfolding parse_ops_intent validate_intent current_intent_gen guard is_allowed lookup rule_intent
    rule_action_to_intent_action patch_action
targetless_rejected_example =
    targetless_rejected (codec (rule_intent hour oom_rule)) world object hour oom_rule refl refl
      refl

abbrev counted : Intents.Claw ℕ
counted = record object { annotations = ("claw.prismer.ai/ops-intent-gen", "5") ∷ [] }
