-- ===== src/Companion/Tests.antt =====
-- A model that fails once, and a gateway.
use k8s4claw.Base.{
  ℕ, ◌*◌, ◌≤◌, ◌≡◌, ap, true, false, none, some, [], ◌∷◌, pos, zero, suc, ltb, String,
}
use k8s4claw.Rules.Types.{high}
use k8s4claw.Controller.Intent.{validate_intent}
use k8s4claw.Controller.Intent.Types.{
  Codec, OpsIntent, Parsed, nothing, invalid, intent, is_allowed,
}
use k8s4claw.Controller.Ops.Types.{EscalationPhase, Escalation, second}
use k8s4claw.Companion.Pipeline.{Model, answered, call_failed, analyze, retries_of, Answer}
use k8s4claw.Companion.Retries.{IsFilled, analyze_ends}
use k8s4claw.Companion.Gateway.{Gateway, Net, response, stamp, ask}
use k8s4claw.Companion.Proposals.{ProposesOnly, ask-ProposesOnly}

abbrev esc : Escalation
esc = record {
  name = "agent-ops-1";
  generate_name = "agent-ops-";
  namespace = "default";
  owner = "agent";
  owner_uid = "1";
  created = 0;
  claw_ref = "agent";
  trigger = record { type = "OOMKilled"; message = ""; first_seen = none; count = 3 };
  severity = high;
  ttl_seconds_after_finished = some (pos 60);
  phase = EscalationPhase.pending;
  matched_rule = "";
  analysis = "";
  proposed_action = "";
  executed_action = "";
  executed_at = none;
  signet_receipt = "";
  approved_by = "";
  approved_at = none;
  rejection_reason = "";
}

abbrev answer_of : ℕ → Answer
answer_of zero = call_failed
answer_of (suc n) = answered "out of memory" "bump"

abbrev model : Model
model = record { answer = answer_of; is_cancelled = λ i. false; format_number = λ n. "n" }

analyze_ends_example :
    ((analyze model (pos 3) esc).calls ≤ 3)
    × ((analyze model (pos 3) esc).waited ≤ 65 * second)
    × IsFilled (analyze model (pos 3) esc).result
unfolding retries_of
analyze_ends_example = analyze_ends model (pos 3) esc

abbrev restart : OpsIntent
restart = record {
  action = "restart-pod";
  params = [];
  generation = pos 5;
  source = "companion-claw";
  escalation_ref = "";
}

abbrev codec : Codec
codec = record {
  Quantity = ℕ;
  zero_quantity = 0;
  parse_quantity = λ s. some 1;
  is_less = ltb;
  unmarshal = λ s. some restart;
  parse_int = λ s. some (pos 5);
  parse_int32 = λ s. some (pos 5);
  format_int = λ n. "5";
}

abbrev net : Net
net = record {
  send = λ r. response 200 (some "{}");
  choices = λ body. some ("Restart it. ACTION: {}" ∷ []);
  is_json_object = λ s. true;
  marshal = λ i. "{}";
  now_ms = pos 5;
}

abbrev gateway : Gateway
gateway = record {
  base_url = "http://gateway:8080/";
  model = "m";
  api_key = "";
  has_http_client = true;
}

abbrev intent_of : Parsed → OpsIntent
intent_of nothing = restart
intent_of invalid = restart
intent_of (intent i) = i

reads_back :
    (raw : String) (i : OpsIntent)
    → validate_intent codec raw ≡ intent i
    → codec.unmarshal (net.marshal (stamp codec net i)) ≡ some (stamp codec net i)
unfolding validate_intent is_allowed
reads_back raw i q = ap (λ parsed. some (stamp codec net (intent_of parsed))) q

ask-ProposesOnly_example : ProposesOnly codec net reads_back (ask codec net gateway "why?")
ask-ProposesOnly_example = ask-ProposesOnly codec net reads_back gateway "why?"
