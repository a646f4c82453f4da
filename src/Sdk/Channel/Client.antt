-- ===== src/Sdk/Channel/Client.antt =====
-- The client: sdk/channel/client.go. Its goroutines take the locks for parts of what they do; a
-- step here is one such part, or one handler. What the connection takes and gives is an argument.
pub mod Replay
pub mod Throttle
pub mod Backoff
pub mod Alternation
use k8s4claw.Base.{
  ℕ, zero, suc, ◌+◌, ◌*◌, min, String, Bool, true, false, not, ◌&&◌, ◌||◌, Option, none, some, List,
  [], ◌∷◌, ◌++◌, length, if◌then◌else◌, ltb, str_eq, ◌==◌, is_some,
}
use k8s4claw.Ipc.Message.{
  MessageType, message, ack, nack, slow_down, resume, shutdown, register, heartbeat, other, Message,
}
use k8s4claw.Sdk.Channel.Buffer.{Buffer, new_buffer, push, len, drain_all}
use k8s4claw.Sdk.Channel.Wire.{client_message}
use k8s4claw.Sdk.Channel.Options.{ClientConfig, Setting, apply_setting, max_reconnect_interval}

pub record InboundMessage : Type 0 where
  pub id : String
  pub channel : String
  pub payload : List ℕ

-- A connection and a channel of Go are known by a number; `closed_chs` are the throttle channels
-- that are closed, and `next_ch` is one that was not used.
pub record Client : Type 0 where
  pub cfg : ClientConfig
  pub conn : Option ℕ
  pub connected : Bool
  pub reconnecting : Bool
  pub buf : Buffer Message
  pub throttled : Bool
  pub throttle_ch : ℕ
  pub closed_chs : List ℕ
  pub next_ch : ℕ
  pub inbound : List InboundMessage
  pub is_done : Bool

abbrev pub inbound_capacity : ℕ
inbound_capacity = 64

unfoldable pub apply_settings : List Setting → ClientConfig → ClientConfig
apply_settings [] cfg = cfg
apply_settings (s ∷ settings) cfg = apply_settings settings (apply_setting s cfg)

-- `Connect` up to the first dial; `none` is its error.
unfoldable pub new_client : ClientConfig → List Setting → Option Client
new_client defaults settings =
    let cfg = apply_settings settings defaults in
    if str_eq cfg.channel_name ""
    then none
    else some (record {
      cfg = cfg;
      conn = none;
      connected = false;
      reconnecting = false;
      buf = new_buffer cfg.buffer_size;
      throttled = false;
      throttle_ch = 0;
      closed_chs = [];
      next_ch = 1;
      inbound = [];
      is_done = false;
    })

-- Whether the channel is closed.
unfoldable pub is_closed : ℕ → List ℕ → Bool
is_closed ch [] = false
is_closed ch (c ∷ cs) = (c == ch) || is_closed ch cs

-- What a step wrote to the connection, in order.
pub record Wrote : Type 0 where
  pub client : Client
  pub written : List Message

-- The loop of `replayBuffer`, from the write `i` on. A connection that is gone by then takes nothing.
unfoldable pub replay_from :
    (ℕ → Bool) → ℕ → List Message → Buffer Message → Buffer Message × List Message
replay_from accepts i [] buf = (buf, [])
replay_from accepts i (msg ∷ msgs) buf =
    let rest = replay_from accepts (suc i) msgs buf in
    if accepts i then (rest.0, msg ∷ rest.1) else ((push msg buf).0, [])

unfoldable pub replay_buffer : (ℕ → Bool) → Client → Wrote
replay_buffer accepts c =
    let drained = drain_all c.buf in
    let replayed = replay_from accepts 0 drained.1 drained.0 in
    record { client = record c { buf = replayed.0 }; written = replayed.1 }

-- What happens to one dial: whether the socket opens and takes the registration, what is read then,
-- and which writes of the replay are taken.
pub record Dialing : Type 0 where
  pub opens : Bool
  pub conn : ℕ
  pub uuid : String
  pub now : ℕ
  pub registers : Bool
  pub reply : Option Message
  pub accepts : ℕ → Bool

-- `ack.Type == typeAck`
unfoldable pub is_ack : MessageType → Bool
is_ack ack = true
is_ack message = false
is_ack nack = false
is_ack slow_down = false
is_ack resume = false
is_ack shutdown = false
is_ack register = false
is_ack heartbeat = false
is_ack (other s) = false

-- The answer is the acknowledgement of the registration.
unfoldable pub is_registered : String → Option Message → Bool
is_registered uuid none = false
is_registered uuid (some reply) = is_ack reply.type && str_eq reply.correlation_id uuid

abbrev pub registration : Dialing → Client → Message
registration d c = client_message d.uuid d.now register c.cfg.channel_name []

-- `dial`: the client, what was written, and whether it succeeds.
unfoldable pub dial : Dialing → Client → Wrote × Bool
dial d c =
    if not (d.opens && d.registers)
    then (record { client = c; written = [] }, false)
    else (if is_registered d.uuid d.reply
        then (let replayed =
              replay_buffer d.accepts (record c { conn = some d.conn; connected = true }) in
            (record replayed { written = registration d c ∷ replayed.written }, true))
        else (record { client = c; written = registration d c ∷ [] }, false))

-- The wait before the next attempt.
unfoldable pub next_interval : ℕ → ℕ
next_interval interval = min (interval * 2) max_reconnect_interval

unfoldable pub mark_disconnected : Client → Client
mark_disconnected c = record c { connected = false; conn = none }

-- Whether a goroutine is started to reconnect.
unfoldable pub try_reconnect : Client → Client × Bool
try_reconnect c = if c.reconnecting then (c, false) else (record c { reconnecting = true }, true)

-- The end of `reconnectLoop`.
unfoldable pub end_reconnect : Client → Client
end_reconnect c = record c { reconnecting = false }

-- What `Send` waits for before it goes on, if it has to.
unfoldable pub wait_channel : Client → Option ℕ
wait_channel c = if c.throttled then some c.throttle_ch else none

-- `Send` from there on: the client, what was written, and whether an error is returned.
pub record Sent : Type 0 where
  pub client : Client
  pub written : List Message
  pub is_error : Bool

unfoldable pub transmit : Bool → Message → Client → Sent
transmit accepted msg c =
    if not c.connected || not (is_some c.conn)
    then (record {
      client = record c { buf = (push msg c.buf).0 };
      written = [];
      is_error = not (push msg c.buf).1;
    })
    else (if accepted
        then (record { client = c; written = msg ∷ []; is_error = false })
        else (let gone = mark_disconnected c in
            record {
              client = (try_reconnect (record gone { buf = (push msg gone.buf).0 })).0;
              written = [];
              is_error = false;
            }))

unfoldable pub buffered_count : Client → ℕ
buffered_count c = len c.buf

-- `Close`, which acts once.
unfoldable pub close : Client → Client
close c = if c.is_done then c else (record c { is_done = true })

-- A handler's outcome: closing a closed channel and sending on one are panics.
pub data Handled : Type 0 where
  handled : Client → Handled
  panicked : Handled

-- The `select` of a data message: with the client closed it may choose the closed channel or the end.
unfoldable pub deliver : Bool → Message → Client → Handled
deliver picks_send msg c =
    if c.is_done
    then (if picks_send then panicked else handled c)
    else (if ltb (length c.inbound) inbound_capacity
        then handled (record c {
          inbound =
              c.inbound
              ++ (record { id = msg.id; channel = msg.channel; payload = msg.payload } ∷ []);
        })
        else handled c)

unfoldable pub handle_type : Bool → Message → Client → MessageType → Handled
handle_type picks_send msg c slow_down =
    handled (record c { throttled = true; throttle_ch = c.next_ch; next_ch = suc c.next_ch })
handle_type picks_send msg c resume =
    if is_closed c.throttle_ch c.closed_chs
    then panicked
    else handled (record c { throttled = false; closed_chs = c.throttle_ch ∷ c.closed_chs })
handle_type picks_send msg c shutdown = handled (close c)
handle_type picks_send msg c ack = handled c
handle_type picks_send msg c nack = handled c
handle_type picks_send msg c heartbeat = handled c
handle_type picks_send msg c message = deliver picks_send msg c
handle_type picks_send msg c register = handled c
handle_type picks_send msg c (other s) = handled c

unfoldable pub handle_message : Bool → Message → Client → Handled
handle_message picks_send msg c = handle_type picks_send msg c msg.type

-- The read loop over the messages that arrive, up to a panic or the end of the client. A message
-- comes with the choice of the `select`.
unfoldable pub handle_all : List (Bool × Message) → Client → Handled
handle_all [] c = handled c
handle_all ((picks_send, msg) ∷ msgs) c = elim c.is_done [
  | true ↦ handled c
  | false ↦ elim (handle_message picks_send msg c) [
    | panicked ↦ panicked
    | handled c' ↦ handle_all msgs c'
  ]
]

-- The heartbeat: what is written, and the client if the connection does not take it.
unfoldable pub beat : Bool → String → ℕ → Client → Wrote
beat accepted uuid now c =
    if not c.connected || not (is_some c.conn)
    then (record { client = c; written = [] })
    else (if accepted
        then (record {
          client = c;
          written = client_message uuid now heartbeat c.cfg.channel_name [] ∷ [];
        })
        else (record { client = (try_reconnect (mark_disconnected c)).0; written = [] }))
