-- ===== src/Ipc/Framing.antt =====
-- Length-prefixed frames on a byte stream: internal/ipcbus/framing.go.
-- A stream is the bytes that it still holds. JSON stands for `encoding/json` on a message.
pub mod RoundTrip
mod Tests
use k8s4claw.Base.{
  ℕ, zero, suc, ◌+◌, ◌*◌, ◌/◌, ◌%◌, ◌^◌, Bool, true, false, Option, none, some, List, [], ◌∷◌, ◌++◌,
  ltb, length, if◌then◌else◌,
}
use k8s4claw.Ipc.Message.{Message}

pub record Json : Type 0 where
  pub marshal : Message → Option (List ℕ)
  pub unmarshal : List ℕ → Option Message

abbrev pub max_message_size : ℕ
max_message_size = 16 * 1024 * 1024

abbrev pub frame_header_size : ℕ
frame_header_size = 4

pub data Written : Type 0 where
  marshal_failed too_large write_failed : Written
  written : List ℕ → Written

-- `binary.BigEndian.PutUint32`, after the conversion to `uint32`.
unfoldable pub put_uint32 : ℕ → List ℕ
put_uint32 n =
    let v = n % 2 ^ 32 in
    (v / 2 ^ 24 % 256) ∷ (v / 2 ^ 16 % 256) ∷ (v / 2 ^ 8 % 256) ∷ (v % 256) ∷ []

-- `binary.BigEndian.Uint32` of a four-byte header.
unfoldable pub get_uint32 : List ℕ → ℕ
get_uint32 (a ∷ b ∷ c ∷ d ∷ rest) = a * 2 ^ 24 + b * 2 ^ 16 + c * 2 ^ 8 + d
get_uint32 other = 0

-- `w` says whether the writer takes the frame; what it took is the result.
unfoldable pub write_message : Json → (List ℕ → Bool) → Message → Written
write_message json w msg = elim (json.marshal msg) [
  | none ↦ marshal_failed
  | some content ↦
      let frame = put_uint32 (length content) ++ content in
      if ltb max_message_size (length content)
      then too_large
      else (if w frame then written frame else write_failed)
]

pub data ReadError : Type 0 where
  eof unexpected_eof too_large body_eof body_unexpected_eof unmarshal_failed : ReadError

-- What `io.ReadFull` gives for the number of bytes asked for: those bytes and the rest.
pub data Full : Type 0 where
  full : List ℕ → List ℕ → Full
  short : Full
  at_eof : Full

-- The next byte before those of the rest; a rest that ends makes the whole short.
abbrev extend : ℕ → Full → Full
extend b (full xs rest) = full (b ∷ xs) rest
extend b other = short

-- `io.ReadFull`: io.EOF if no byte was there, io.ErrUnexpectedEOF if some were.
unfoldable pub read_full : ℕ → List ℕ → Full
read_full zero s = full [] s
read_full (suc n) [] = at_eof
read_full (suc n) (b ∷ s) = extend b (read_full n s)

pub data Received : Type 0 where
  received : Message → List ℕ → Received
  failed : ReadError → Received

abbrev pub decode : Json → List ℕ → List ℕ → Received
decode json content rest = elim (json.unmarshal content) [
  | none ↦ failed unmarshal_failed
  | some msg ↦ received msg rest
]

abbrev pub read_body : Json → Full → Received
read_body json (full content rest) = decode json content rest
read_body json short = failed body_unexpected_eof
read_body json at_eof = failed body_eof

unfoldable pub read_header : Json → Full → Received
read_header json (full header s) =
    let n = get_uint32 header in
    let body = read_body json (read_full n s) in
    if ltb max_message_size n then failed ReadError.too_large else body
read_header json short = failed unexpected_eof
read_header json at_eof = failed eof

unfoldable pub read_message : Json → List ℕ → Received
unfolding read_header
read_message json s = read_header json (read_full frame_header_size s)
