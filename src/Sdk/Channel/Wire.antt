-- ===== src/Sdk/Channel/Wire.antt =====
-- The client's own copy of the wire format: sdk/channel/message.go. The types of messages are those
-- of the bus, and JSON stands for `encoding/json` on a message.
use k8s4claw.Base.{ℕ, ◌*◌, String, Bool, Option, none, some, List, ◌++◌, ltb, length, if◌then◌else◌}
use k8s4claw.Ipc.Message.{Message, MessageType, ack}
use k8s4claw.Ipc.Framing.{
  Json, put_uint32, get_uint32, Written, marshal_failed, write_failed, written, ReadError,
  unexpected_eof, eof, body_eof, body_unexpected_eof, unmarshal_failed, Full, full, short, at_eof,
  read_full, Received, received, failed,
}

abbrev pub max_frame : ℕ
max_frame = 16 * 1024 * 1024

abbrev pub header_size : ℕ
header_size = 4

unfoldable pub client_message : String → ℕ → MessageType → String → List ℕ → Message
client_message uuid now mt channel payload = record {
  id = uuid;
  type = mt;
  channel = channel;
  correlation_id = "";
  reply_to = "";
  timestamp = now;
  payload = payload;
}

unfoldable pub client_ack : (String → List ℕ) → String → ℕ → String → Message
client_ack marshal_ref uuid now id = record {
  id = uuid;
  type = ack;
  channel = "";
  correlation_id = id;
  reply_to = "";
  timestamp = now;
  payload = marshal_ref id;
}

-- A frame that the connection takes, or an error.
unfoldable pub send_frame : Json → (List ℕ → Bool) → Message → Written
send_frame json conn msg = elim (json.marshal msg) [
  | none ↦ marshal_failed
  | some data_bytes ↦
      if ltb max_frame (length data_bytes)
      then Written.too_large
      else (if conn (put_uint32 (length data_bytes) ++ data_bytes)
          then written (put_uint32 (length data_bytes) ++ data_bytes)
          else write_failed)
]

unfoldable pub unmarshalled : List ℕ → Option Message → Received
unmarshalled rest none = failed unmarshal_failed
unmarshalled rest (some msg) = received msg rest

unfoldable pub body_frame : Json → Full → Received
body_frame json at_eof = failed body_eof
body_frame json short = failed body_unexpected_eof
body_frame json (full data_bytes rest) = unmarshalled rest (json.unmarshal data_bytes)

unfoldable pub header_frame : Json → Full → Received
header_frame json at_eof = failed eof
header_frame json short = failed unexpected_eof
header_frame json (full header rest) =
    if ltb max_frame (get_uint32 header)
    then failed ReadError.too_large
    else body_frame json (read_full (get_uint32 header) rest)

unfoldable pub receive_frame : Json → List ℕ → Received
receive_frame json s = header_frame json (read_full header_size s)
