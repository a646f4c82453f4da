-- ===== src/Ipc/Message.antt =====
-- The messages of the bus: internal/ipcbus/message.go.
use k8s4claw.Base.{ℕ, String, Bool, true, false, List}

-- `MessageType` is a string: `other` stands for every value that is none of the constants.
pub data MessageType : Type 0 where
  message ack nack slow_down resume shutdown register heartbeat : MessageType
  other : String → MessageType

-- A raw JSON payload is its bytes, and an absent one has none.
pub record Message : Type 0 where
  pub id : String
  pub type : MessageType
  pub channel : String
  pub correlation_id : String
  pub reply_to : String
  pub timestamp : ℕ
  pub payload : List ℕ

-- The identifier and the clock come from outside.
unfoldable pub new_message : String → ℕ → MessageType → String → List ℕ → Message
new_message uuid now msg_type channel payload = record {
  id = uuid;
  type = msg_type;
  channel = channel;
  correlation_id = "";
  reply_to = "";
  timestamp = now;
  payload = payload;
}

-- `marshal_ref` is `json.Marshal(map[string]string{"ref": id})`.
unfoldable pub new_ack : (String → List ℕ) → String → ℕ → String → Message
new_ack marshal_ref uuid now id = record {
  id = uuid;
  type = ack;
  channel = "";
  correlation_id = id;
  reply_to = "";
  timestamp = now;
  payload = marshal_ref id;
}

is_control_type : MessageType → Bool
is_control_type message = false
is_control_type (other s) = false
is_control_type _ = true

unfoldable pub is_control : Message → Bool
unfolding is_control_type
is_control m = is_control_type m.type
