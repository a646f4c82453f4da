-- ===== src/Lifecycle/Tests.antt =====
-- The life of one escalation.
use k8s4claw.Base.{ℕ, ◌+◌, ◌≤◌, ◌≡◌, ◌⊎◌, refl, true, false, none, some, [], ◌∷◌, pos}
use k8s4claw.Rules.Types.{high}
use k8s4claw.Rules.Builtin.{default_rules}
use k8s4claw.Controller.Ops.Types.{
  EscalationPhase, unset, pending, Escalation, Claw, Ops, default_claw_ops_config, is_pending,
  is_approved, is_terminal_phase,
}
use k8s4claw.Controller.Ops.{is_due, executed_at_time}
use k8s4claw.Companion.Pipeline.{Model, answered}
use k8s4claw.Companion.Watcher.{Env, begun, proposed_by, process_escalation}
use k8s4claw.Cli.Approval.{approve, is_awaiting}
use k8s4claw.Lifecycle.{Steps, here, then, opens, begins, ends, approves, executes}
use k8s4claw.Lifecycle.Progress.{rank, lifecycle_bounded}
use k8s4claw.Lifecycle.Approved.{IsVouched, executed-IsVouched}
use k8s4claw.Lifecycle.Sources.{Chain, process_escalation-Chain}

abbrev esc : Escalation
esc = record {
  name = "agent-ops-1";
  generate_name = "agent-ops-";
  namespace = "default";
  owner = "agent";
  owner_uid = "1";
  created = 0;
  claw_ref = "agent";
  trigger = record { type = "OOMKilled"; message = ""; first_seen = none; count = 3 };
  severity = high;
  ttl_seconds_after_finished = some (pos 60);
  phase = pending;
  matched_rule = "";
  analysis = "";
  proposed_action = "";
  executed_action = "";
  executed_at = none;
  signet_receipt = "";
  approved_by = "";
  approved_at = none;
  rejection_reason = "";
}

abbrev claw : Claw
claw = record { name = "agent"; namespace = "default"; uid = "1"; annotations = [] }

abbrev waiting : Escalation
waiting = proposed_by "out of memory" "bump" (begun esc)

abbrev agreed : Escalation
agreed = record waiting {
  phase = EscalationPhase.approved;
  approved_by = "sre";
  approved_at = some 7;
}

abbrev new : Escalation
new = record esc { phase = unset }

abbrev life : Steps 5 new (executed_at_time 9 agreed)
unfolding is_pending approve is_awaiting is_due is_approved
life =
    then 4 new agreed (executed_at_time 9 agreed)
      (then 3 new waiting agreed
        (then 2 new (begun esc) waiting
          (then 1 new esc (begun esc) (then 0 new new esc (here new) (opens new refl))
            (begins esc refl))
          (ends esc "out of memory" "bump"))
        (approves waiting agreed "sre" 7 refl))
      (executes agreed claw 9 refl)

abbrev pending_life : Steps 4 esc (executed_at_time 9 agreed)
unfolding is_pending approve is_awaiting is_due is_approved
pending_life =
    then 3 esc agreed (executed_at_time 9 agreed)
      (then 2 esc waiting agreed
        (then 1 esc (begun esc) waiting (then 0 esc esc (begun esc) (here esc) (begins esc refl))
          (ends esc "out of memory" "bump"))
        (approves waiting agreed "sre" 7 refl))
      (executes agreed claw 9 refl)

lifecycle_bounded_example :
    (rank new.phase + 5 ≤ rank (executed_at_time 9 agreed).phase)
    × (5 ≤ 5)
    × ((is_terminal_phase new.phase ≡ false) ⊎ ◌≡◌ {A = ℕ} 5 0)
lifecycle_bounded_example = lifecycle_bounded 5 new (executed_at_time 9 agreed) life

executed-IsVouched_example :
    IsVouched (executed_at_time 9 agreed)
    × ((executed_at_time 9 agreed).executed_action ≡ (executed_at_time 9 agreed).proposed_action)
executed-IsVouched_example =
    executed-IsVouched 4 esc (executed_at_time 9 agreed) refl pending_life refl

abbrev model : Model
model = record {
  answer = λ i. answered "out of memory" "bump";
  is_cancelled = λ i. false;
  format_number = λ n. "n";
}

abbrev env : Env
env = record {
  model = λ e. model;
  update_status = λ e. true;
  pipeline_error = "";
  list = λ ns. some (esc ∷ []);
}

process_escalation-Chain_example : Chain esc (process_escalation env (pos 3) esc).acts
process_escalation-Chain_example = process_escalation-Chain env (pos 3) esc

abbrev ops : Ops
ops = record {
  config = default_claw_ops_config;
  rule_engine = record { rules = default_rules; cooldowns = [] };
  action_counts = [];
}
