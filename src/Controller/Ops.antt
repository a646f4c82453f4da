-- ===== src/Controller/Ops.antt =====
-- The operations controller: internal/controller/clawops_controller.go. It executes what was
-- approved, deletes what has expired, reads the signals of the pods, and executes a rule or
-- escalates.
pub mod Types
pub mod Signals
mod Escalations
pub mod RateLimit
pub mod Calls
pub mod Reconciled
pub mod Audits
pub mod Ran
pub mod OwnName
pub mod OtherName
pub mod Budget
pub mod HourlyLimit
pub mod Sanctioned
pub mod Consumed
pub mod Expiry
pub mod Kinds
pub mod Audit
mod Tests
use k8s4claw.Base.{
  ◌++◌, ◌<>◌, ℕ, ◌+◌, ◌*◌, ◌/◌, String, Bool, true, false, not, ◌&&◌, ◌||◌, Option, none, some,
  List, [], ◌∷◌, ℤ, pos, negsuc, length, keep, if◌then◌else◌, ltb, leb, str_eq, Dict, lookup,
  insert,
}
use k8s4claw.Rules.Types.{Signal, Rule, TriggerType}
use k8s4claw.Rules.Engine.{Engine, match_highest_priority, record_execution}
use k8s4claw.Controller.Intent.Types.{OpsIntent, ops_intent}
use k8s4claw.Controller.Ops.Types.{
  EscalationPhase, pending, auto_executed, executed, is_terminal_phase, is_approved, Escalation,
  Ops, Claw, Platform, Created, Cluster, Got, not_found, get_error, found, Call, patch_claw,
  create_escalation, update_escalation, delete_escalation, event, Done, Outcome, second, hour,
}
use k8s4claw.Controller.Ops.Signals.{collect_signals}
unfoldable pub use k8s4claw.Controller.Ops.Escalations.{
  with_intent, is_due, executed_at_time, process_approved, process_approved_escalations,
  annotations_after, approved_annotations, claw_after, ttl_of, is_past, is_expired, gc_expired,
  gc_expired_escalations,
}

-- `r.actionCounts[clawName]`
unfoldable pub or_empty : Option (List ℕ) → List ℕ
or_empty none = []
or_empty (some times) = times

unfoldable pub actions_of : String → Ops → List ℕ
actions_of claw ops = or_empty (lookup claw ops.action_counts)

-- `t.After(now - 1h)`
unfoldable pub is_recent : ℕ → ℕ → Bool
is_recent now t = ltb now (t + hour)

-- `isRateLimited`: what it keeps of the times, and its answer.
unfoldable pub prune_actions : ℕ → String → Ops → Ops
prune_actions now claw ops = record ops {
  action_counts = insert claw (keep (is_recent now) (actions_of claw ops)) ops.action_counts;
}

unfoldable pub is_rate_limited : ℕ → String → Ops → Bool
is_rate_limited now claw ops =
    leb ops.config.max_actions_per_claw_per_hour
      (length (keep (is_recent now) (actions_of claw ops)))

unfoldable pub record_action : ℕ → String → Ops → Ops
record_action now claw ops = record ops {
  action_counts = insert claw (actions_of claw ops ++ (now ∷ [])) ops.action_counts;
}

-- `escList.Items[i].Spec.ClawRef.Name == claw.Name && !IsTerminalPhase(...)`
unfoldable pub is_active : Claw → Escalation → Bool
is_active claw esc = str_eq esc.claw_ref claw.name && not (is_terminal_phase esc.phase)

-- `activeTypes[t]`
unfoldable pub is_active_type : Claw → List Escalation → TriggerType → Bool
is_active_type claw [] t = false
is_active_type claw (esc ∷ escs) t =
    (is_active claw esc && str_eq esc.trigger.type t) || is_active_type claw escs t

-- All signals pass if the escalations cannot be listed.
unfoldable pub deduplicate_signals : Claw → Option (List Escalation) → List Signal → List Signal
deduplicate_signals claw none sigs = sigs
deduplicate_signals claw (some escs) sigs =
    keep (λ sig. not (is_active_type claw escs sig.type)) sigs

-- The resource that is made for a signal.
unfoldable pub new_escalation : ℕ → Claw → Ops → Signal → Escalation
new_escalation now claw ops sig = record {
  name = "";
  generate_name = claw.name <> "-ops-";
  namespace = claw.namespace;
  owner = claw.name;
  owner_uid = claw.uid;
  created = 0;
  claw_ref = claw.name;
  trigger = record {
    type = sig.type;
    message = sig.message;
    first_seen = some now;
    count = sig.count;
  };
  severity = sig.severity;
  ttl_seconds_after_finished = some ops.config.escalation_ttl;
  phase = EscalationPhase.unset;
  matched_rule = "";
  analysis = "";
  proposed_action = "";
  executed_action = "";
  executed_at = none;
  signet_receipt = "";
  approved_by = "";
  approved_at = none;
  rejection_reason = "";
}

-- The resource as it is after its creation.
abbrev pub with_created : Created → Escalation → Escalation
with_created c esc = record esc { name = c.name; created = c.created }

unfoldable pub escalate : Cluster → Claw → Ops → Signal → Done
escalate w claw ops sig =
    let esc = new_escalation w.now claw ops sig in
    elim (w.create esc) [
      | none ↦ record { calls = create_escalation esc ∷ []; is_error = true }
      | some c ↦
          let e : Escalation = record (with_created c esc) { phase = pending } in
          record {
            calls = create_escalation esc ∷ update_escalation e ∷ [];
            is_error = not (w.update_status e);
          }
    ]

-- Errors are only logged.
unfoldable pub escalate_all : Cluster → Claw → Ops → List Signal → List Call
escalate_all w claw ops [] = []
escalate_all w claw ops (sig ∷ sigs) =
    (escalate w claw ops sig).calls ++ escalate_all w claw ops sigs

-- The action for the field that a `PatchResource` rule names.
unfoldable pub patch_action : Option String → String
patch_action none = "bump-memory"
patch_action (some field) =
    if str_eq field "memory-limit"
    then "bump-memory"
    else (if str_eq field "cpu-request" then "bump-cpu" else "bump-memory")

unfoldable pub rule_action_to_intent_action : Rule → String
rule_action_to_intent_action rule =
    if str_eq rule.action.type "PatchResource"
    then patch_action (lookup "field" rule.action.params)
    else (if str_eq rule.action.type "RestartPod"
        then "restart-pod"
        else (if str_eq rule.action.type "ScaleReplicas"
            then "scale-replicas"
            else rule.action.type))

-- What `buildIntentJSON` marshals; the generation is in milliseconds.
unfoldable pub rule_intent : ℕ → Rule → OpsIntent
rule_intent now rule = record {
  action = rule_action_to_intent_action rule;
  params = rule.action.params;
  generation = pos (now / 1_000_000);
  source = "rule-engine";
  escalation_ref = "";
}

-- The receipt of the signer; an error is only logged.
unfoldable pub receipt_of : Platform → Claw → Rule → String
receipt_of p claw rule =
    elim (p.sign (record {
      key = "rule-engine";
      tool = rule.action.type;
      params = rule.action.params;
      target = "claw://" <> claw.namespace <> "/" <> claw.name;
    })) [ none ↦ "" | some receipt ↦ receipt ]

-- The status of the audit record.
abbrev pub audited : Platform → ℕ → Claw → Rule → Escalation → Escalation
audited p now claw rule esc = record esc {
  phase = auto_executed;
  matched_rule = rule.id;
  executed_action = p.marshal (rule_intent now rule);
  executed_at = some now;
  signet_receipt = receipt_of p claw rule;
}

-- The action is counted and its cooldown starts.
abbrev pub recorded : ℕ → Claw → Rule → Ops → Ops
recorded now claw rule ops =
    let counted = record_action now claw.name ops in
    record counted { rule_engine = record_execution now claw.name rule.id counted.rule_engine }

-- From the status update of the audit record on.
unfoldable pub finish_execute :
    Platform → Cluster → Claw → Ops → Rule → List Call → Escalation → Outcome
finish_execute p w claw ops rule before esc =
    let e = audited p w.now claw rule esc in
    if w.update_status e
    then (record {
      calls = before ++ (update_escalation e ∷ event "AutoRemediation" ∷ []);
      ops = recorded w.now claw rule ops;
      is_error = false;
    })
    else (record { calls = before ++ (update_escalation e ∷ []); ops = ops; is_error = true })

unfoldable pub auto_execute : Platform → Cluster → Claw → Ops → Signal → Rule → Outcome
auto_execute p w claw ops sig rule =
    let patched = with_intent (p.marshal (rule_intent w.now rule)) claw in
    let esc = new_escalation w.now claw ops sig in
    elim (w.patch patched) [
      | none ↦ record { calls = patch_claw patched ∷ []; ops = ops; is_error = true }
      | some annotations ↦ elim (w.create esc) [
        | none ↦ record {
          calls = patch_claw patched ∷ create_escalation esc ∷ [];
          ops = ops;
          is_error = true;
        }
        | some c ↦
            finish_execute p w claw ops rule (patch_claw patched ∷ create_escalation esc ∷ [])
              (with_created c esc)
      ]
    ]

-- Steps 6 and 7: the match, and the signals that it leaves.
unfoldable pub is_other : Signal → Signal → Bool
is_other sig s = not (str_eq s.type sig.type)

unfoldable pub handle_match :
    Platform → Cluster → Claw → Ops → List Signal → Option (Signal × Rule) → Outcome
handle_match p w claw ops sigs none = record {
  calls = escalate_all w claw ops sigs;
  ops = ops;
  is_error = false;
}
handle_match p w claw ops sigs (some (sig, rule)) =
    let ran = auto_execute p w claw ops sig rule in
    record {
      calls =
          ran.calls
          ++ ((if ran.is_error then (escalate w claw ran.ops sig).calls else [])
              ++ escalate_all w claw ran.ops (keep (is_other sig) sigs));
      ops = ran.ops;
      is_error = false;
    }

-- Step 5: the rate limit.
unfoldable pub handle_limited : Platform → Cluster → Claw → Ops → List Signal → Bool → Outcome
handle_limited p w claw ops sigs true = record {
  calls = escalate_all w claw ops sigs;
  ops = ops;
  is_error = false;
}
handle_limited p w claw ops sigs false =
    handle_match p w claw ops sigs (match_highest_priority ops.rule_engine w.now claw.name sigs)

unfoldable pub handle_signals : Platform → Cluster → Claw → Ops → List Signal → Outcome
handle_signals p w claw ops [] = record { calls = []; ops = ops; is_error = false }
handle_signals p w claw ops (sig ∷ sigs) =
    handle_limited p w claw (prune_actions w.now claw.name ops) (sig ∷ sigs)
      (is_rate_limited w.now claw.name ops)

-- From step 3 on.
unfoldable pub handle_pods : Platform → Cluster → Claw → Ops → Outcome
handle_pods p w claw ops = elim w.pods [
  | none ↦ record { calls = []; ops = ops; is_error = true }
  | some pods ↦
      handle_signals p w claw ops
        (deduplicate_signals claw w.listed_for_dedup (collect_signals p pods))
]

-- Errors of the first two steps are only logged.
unfoldable pub reconcile_claw : Platform → Cluster → Ops → Claw → Outcome
reconcile_claw p w ops claw =
    let rest = handle_pods p w (claw_after w claw) ops in
    record rest {
      calls =
          (process_approved_escalations w claw).calls
          ++ ((gc_expired_escalations w ops claw).calls ++ rest.calls);
    }

unfoldable pub reconcile_got : Platform → Cluster → Ops → Got → Outcome
reconcile_got p w ops not_found = record { calls = []; ops = ops; is_error = false }
reconcile_got p w ops get_error = record { calls = []; ops = ops; is_error = true }
reconcile_got p w ops (found claw) = reconcile_claw p w ops claw

unfoldable pub reconcile : Platform → Cluster → Ops → Outcome
reconcile p w ops = reconcile_got p w ops w.get

-- The object that a change of a pod or of an escalation asks to reconcile.
pub record Request : Type 0 where
  pub name : String
  pub namespace : String

-- A pod's labels and namespace.
unfoldable pub pod_to_claw : Dict String → String → List Request
pod_to_claw labels namespace = elim (lookup "claw.prismer.ai/instance" labels) [
  | none ↦ []
  | some claw ↦ record { name = claw; namespace = namespace } ∷ []
]

unfoldable pub escalation_to_claw : Escalation → List Request
escalation_to_claw esc = record { name = esc.claw_ref; namespace = esc.namespace } ∷ []
