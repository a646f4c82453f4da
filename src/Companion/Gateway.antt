-- ===== src/Companion/Gateway.antt =====
-- The client of the language model's gateway: cmd/claw4k8s/llm_client.go. HTTP and JSON are
-- parameters.
use k8s4claw.Base.{
  ℕ, ◌<>◌, String, Bool, not, Option, none, some, List, [], ◌∷◌, ℤ, ◌==◌, leb, if◌then◌else◌,
  str_eq, trim_right, trim_space, trim_prefix, trim_suffix, has_suffix, cut,
}
use k8s4claw.Controller.Intent.{validate_intent}
use k8s4claw.Controller.Intent.Types.{Codec, OpsIntent, Parsed, nothing, intent, invalid}
use k8s4claw.Companion.Pipeline.{Answer, answered, call_failed}
use k8s4claw.Companion.Prompt.{companion_system_prompt}

pub record Gateway : Type 0 where
  pub base_url : String
  pub model : String
  pub api_key : String
  pub has_http_client : Bool

pub record ChatMessage : Type 0 where
  pub role : String
  pub content : String

pub record Request : Type 0 where
  pub url : String
  pub authorization : Option String
  pub model : String
  pub messages : List ChatMessage

-- No answer, or a status and the body as far as it could be read.
pub data Response : Type 0 where
  unreachable : Response
  response : ℕ → Option String → Response

-- The libraries and the clock: sending a request, which may not be one that can be built; the
-- contents of the choices of a response; whether a text is a JSON object; an intent as JSON; the
-- milliseconds since 1970.
pub record Net : Type 0 where
  pub send : Request → Response
  pub choices : String → Option (List String)
  pub is_json_object : String → Bool
  pub marshal : OpsIntent → String
  pub now_ms : ℤ

abbrev without_slash : String → String
without_slash s = trim_right (λ c. c == 47) s

unfoldable pub gateway_url : String → String
gateway_url base_url =
    if has_suffix (without_slash base_url) "/v1"
    then without_slash base_url <> "/chat/completions"
    else without_slash base_url <> "/v1/chat/completions"

unfoldable pub chat_request : Gateway → String → Request
chat_request g prompt = record {
  url = gateway_url g.base_url;
  authorization = if str_eq g.api_key "" then none else some ("Bearer " <> g.api_key);
  model = g.model;
  messages =
      record { role = "system"; content = companion_system_prompt }
      ∷ record { role = "user"; content = prompt }
      ∷ [];
}

unfoldable pub strip_fences : String → String
strip_fences s =
    trim_space (trim_suffix (trim_prefix (trim_prefix (trim_space s) "```json") "```") "```")

-- What stands behind the marker, if that is a JSON object.
unfoldable pub marked_action : Net → String → String → String × String
marked_action net before after =
    let raw = strip_fences (trim_space after) in
    if net.is_json_object raw then (trim_space before, raw) else (trim_space before, "")

-- The block of JSON, if it is closed and a JSON object.
unfoldable pub fenced_action : Net → String → String → String → String × String
fenced_action net content before after = elim (cut after "```") [
  | none ↦ (content, "")
  | some parts ↦
      if net.is_json_object (trim_space parts.0)
      then (trim_space before, trim_space parts.0)
      else (content, "")
]

-- The analysis and the action in an answer.
unfoldable pub extract_action : Net → String → String × String
extract_action net content = elim (cut content "ACTION:") [
  | some parts ↦ marked_action net parts.0 parts.1
  | none ↦ elim (cut content "```json") [
    | some parts ↦ fenced_action net content parts.0 parts.1
    | none ↦ (content, "")
  ]
]

module _ (k : Codec) (net : Net) where
  -- The generation is the server's; a source that is missing is filled in.
  abbrev pub stamp : OpsIntent → OpsIntent
  stamp i = record i {
    generation = net.now_ms;
    source = if str_eq i.source "" then "companion-claw" else i.source;
  }

  unfoldable pub stamped : Parsed → Option String
  stamped nothing = none
  stamped invalid = none
  stamped (intent i) = some (net.marshal (stamp i))

  unfoldable pub validate_and_stamp_action : String → Option String
  validate_and_stamp_action raw = stamped (validate_intent k raw)

  -- An action that is not valid is dropped.
  unfoldable pub checked_action : String → String
  checked_action raw =
      if str_eq raw ""
      then ""
      else elim (validate_and_stamp_action raw) [ none ↦ "" | some action ↦ action ]

  unfoldable pub read_choices : Option (List String) → Answer
  read_choices none = call_failed
  read_choices (some []) = call_failed
  read_choices (some (content ∷ contents)) =
      answered (extract_action net content).0 (checked_action (extract_action net content).1)

  unfoldable pub read_response : Response → Answer
  read_response unreachable = call_failed
  read_response (response status none) = call_failed
  read_response (response status (some body)) =
      if leb 400 status then call_failed else read_choices (net.choices body)

  -- `Analyze` of the gateway's client.
  unfoldable pub ask : Gateway → String → Answer
  ask g prompt =
      if not g.has_http_client
      then call_failed
      else read_response (net.send (chat_request g prompt))

-- `Analyze` of `noopLLMClient`.
unfoldable pub ask_noop : String → Answer
ask_noop prompt = answered "" ""
