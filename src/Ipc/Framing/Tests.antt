-- ===== src/Ipc/Framing/Tests.antt =====
-- A message of two bytes on the stream, and the bytes behind it.
use k8s4claw.Base.{ℕ, ◌≤◌, ◌≡◌, refl, true, some, List, [], ◌∷◌, ◌++◌, length}
use k8s4claw.Ipc.Message.{Message, message}
use k8s4claw.Ipc.Framing.{
  Json, put_uint32, get_uint32, write_message, received, read_message, max_message_size, read_full,
  read_header,
}
use k8s4claw.Ipc.Framing.RoundTrip.{read_message-write_message, read_message-inv}

abbrev hello : Message
hello = record {
  id = "m1";
  type = message;
  channel = "chat";
  correlation_id = "";
  reply_to = "";
  timestamp = 7;
  payload = [];
}

abbrev two_bytes : Json
two_bytes = record { marshal = λ m. some (123 ∷ 125 ∷ []); unmarshal = λ s. some hello }

abbrev frame : List ℕ
frame = 0 ∷ 0 ∷ 0 ∷ 2 ∷ 123 ∷ 125 ∷ []

read_message-write_message_example :
    read_message two_bytes (frame ++ (0 ∷ 0 ∷ [])) ≡ received hello (0 ∷ 0 ∷ [])
unfolding write_message put_uint32
read_message-write_message_example =
    read_message-write_message two_bytes (λ f. true) hello (123 ∷ 125 ∷ []) frame (0 ∷ 0 ∷ []) refl
      refl refl

read_message-inv_example :
    (header : List ℕ) × (content : List ℕ) × (frame ++ (9 ∷ []) ≡ header ++ (content ++ (9 ∷ [])))
    × (length header ≡ 4)
    × (length content ≡ get_uint32 header)
    × (get_uint32 header ≤ max_message_size)
    × (some hello ≡ some hello)
unfolding read_message read_full read_header get_uint32
read_message-inv_example = read_message-inv two_bytes (frame ++ (9 ∷ [])) (9 ∷ []) hello refl
