-- ===== src/Ipc/Router.antt =====
-- Routing between sidecars and the runtime: internal/ipcbus/router.go, and the connections of
-- internal/ipcbus/server.go. A handler is one step of the router. What it sends is added to the
-- end of `outbox`; whether a send to a sidecar succeeds is only logged and changes nothing.
-- `*Router.mu` guards the two maps; a sidecar's messages are handled one after the other.
pub mod Inbound
pub mod Backlog
mod Tests
use k8s4claw.Base.{
  ℕ, zero, suc, ◌+◌, ◌≡◌, String, Bool, true, false, not, Option, none, some, List, [], ◌∷◌, ◌++◌,
  if◌then◌else◌, leb, length, Dict, lookup, insert, delete, is_some, ℤ, pos, ◌&&◌,
}
use k8s4claw.Ipc.Message.{
  MessageType, heartbeat, ack, slow_down, resume, shutdown, Message, new_message, new_ack,
  is_control,
}
use k8s4claw.Ipc.Float.{Float}
use k8s4claw.Ipc.Ring.{RingBuffer, size_of, high_of, low_of, new_ring_buffer, push, pop}
use k8s4claw.Ipc.Wal.{
  WalEntry, WalJson, Wal, append, mark_complete, mark_dlq, increment_attempts, pending_entries,
}
use k8s4claw.Ipc.Dlq.{Bolt, put_message}

abbrev pub max_retry_attempts : ℕ
max_retry_attempts = 5

-- A connection is told from others by its number.
pub record SidecarConn : Type 0 where
  pub channel : String
  pub mode : String
  pub conn : ℕ

pub data Event : Type 0 where
  to_sidecar : SidecarConn → Message → Event
  to_bridge : Message → Event

-- What the environment of one handler does: the clock, identifiers for what it sends, and which
-- calls succeed. `bridge_takes` is whether `bridge.Send` returns no error.
pub record Env : Type 0 where
  pub uuid : String
  pub now : ℕ
  pub ts : String
  pub marshal_ref : String → List ℕ
  pub append_ok : Bool
  pub complete_ok : Bool
  pub increment_ok : Bool
  pub mark_ok : Bool
  pub commit : Bool
  pub bridge_takes : Message → Bool

-- The log, the dead letter queue and the bridge may be absent. `F` is the type of floats, `Line`
-- that of the lines of the log, `Bucket` that of the store of the queue.
pub record Router (F Line Bucket : Type 0) : Type 0 where
  pub sidecars : Dict SidecarConn
  pub buffers : Dict (RingBuffer F Message)
  pub bridged : Bool
  pub wal : Option (Wal Line)
  pub dlq : Option Bucket
  pub dlq_max : ℕ
  pub buffer_size : ℕ
  pub high_watermark : F
  pub low_watermark : F
  pub outbox : List Event

module _ (fl : Float) (json : WalJson) (bolt : Bolt) where
  open fl use {F}
  open json use {Line}
  open bolt use {Bucket}

  abbrev R : Type 0
  R = Router F Line Bucket

  unfoldable pub new_router : Bool → Option (Wal Line) → Option Bucket → ℕ → ℤ → F → F → R
  new_router bridged wal dlq dlq_max bs hw lw = record {
    sidecars = [];
    buffers = [];
    bridged = bridged;
    wal = wal;
    dlq = dlq;
    dlq_max = dlq_max;
    buffer_size = size_of bs;
    high_watermark = high_of fl hw;
    low_watermark = low_of fl lw (high_of fl hw);
    outbox = [];
  }

  unfoldable pub register : SidecarConn → R → R
  register sc r =
      let fresh = new_ring_buffer fl (pos r.buffer_size) r.high_watermark r.low_watermark in
      record r {
        sidecars = insert sc.channel sc r.sidecars;
        buffers =
            if is_some (lookup sc.channel r.buffers)
            then r.buffers
            else insert sc.channel fresh r.buffers;
      }

  unfoldable pub unregister : SidecarConn → R → R
  unregister sc r = record r { sidecars = delete sc.channel r.sidecars }

  unfoldable pub connected_count : R → ℕ
  connected_count r = length r.sidecars

  abbrev send : Event → R → R
  send e r = record r { outbox = r.outbox ++ (e ∷ []) }

  control : MessageType → Env → SidecarConn → Message → R → R
  control heartbeat env from msg r =
      send (to_sidecar from (new_ack env.marshal_ref env.uuid env.now msg.id)) r
  control _ env from msg r = r

  unfoldable pub handle_control : Env → SidecarConn → Message → R → R
  unfolding control
  handle_control env from msg r = control msg.type env from msg r

  -- Moves the message to the dead letter queue once its attempts are used up.
  give_up : Env → Message → ℕ → Wal Line → R → R
  give_up env msg attempts w r =
      let w' = (mark_dlq json env.mark_ok env.ts msg.id w).0 in
      elim (r.dlq) [
        | none ↦ record r { wal = some w' }
        | some b ↦ record r {
          wal = some w';
          dlq = some (put_message bolt r.dlq_max env.commit env.now msg attempts b).0;
        }
      ]

  retry : Env → Message → Wal Line × ℕ × Bool → R → R
  retry env msg (w, attempts, done) r =
      if done && leb max_retry_attempts attempts
      then give_up env msg attempts w r
      else record r { wal = some w }

  unfoldable pub schedule_retry : Env → Message → R → R
  unfolding retry give_up
  schedule_retry env msg r = elim (r.wal) [
    | none ↦ r
    | some w ↦ retry env msg (increment_attempts json env.increment_ok env.ts msg.id w) r
  ]

  -- A failed append is only logged.
  log_append : Env → Message → R → R
  log_append env msg r = elim (r.wal) [
    | none ↦ r
    | some w ↦ record r { wal = some (append json env.append_ok env.ts msg w).0 }
  ]

  pushed : Env → SidecarConn → RingBuffer F Message × Bool × Bool → R → R
  pushed env from (rb, ok, changed) r =
      let r' = record r { buffers = insert from.channel rb r.buffers } in
      if changed
      then send (to_sidecar from (new_message env.uuid env.now slow_down from.channel [])) r'
      else r'

  -- A message that a full buffer refuses is only logged.
  buffer_push : Env → SidecarConn → Message → R → R
  unfolding pushed
  buffer_push env from msg r = elim (lookup from.channel r.buffers) [
    | none ↦ r
    | some rb ↦ pushed env from (push fl rb msg) r
  ]

  popped : Env → SidecarConn → RingBuffer F Message × Option Message × Bool → R → R
  popped env from (rb, msg, changed) r =
      let r' = record r { buffers = insert from.channel rb r.buffers } in
      if changed
      then send (to_sidecar from (new_message env.uuid env.now resume from.channel [])) r'
      else r'

  buffer_pop : Env → SidecarConn → R → R
  unfolding popped
  buffer_pop env from r = elim (lookup from.channel r.buffers) [
    | none ↦ r
    | some rb ↦ popped env from (pop fl rb) r
  ]

  log_complete : Env → Message → R → R
  log_complete env msg r = elim (r.wal) [
    | none ↦ r
    | some w ↦ record r { wal = some (mark_complete json env.complete_ok env.ts msg.id w).0 }
  ]

  -- The bridge is told, if there is one; the result is whether it took the message.
  forward : Env → Message → R → R × Bool
  forward env msg r =
      if r.bridged then (send (to_bridge msg) r, env.bridge_takes msg) else (r, true)

  settle : Env → SidecarConn → Message → R × Bool → R
  settle env from msg (r, taken) =
      if taken then buffer_pop env from (log_complete env msg r) else schedule_retry env msg r

  unfoldable pub handle_inbound : Env → SidecarConn → Message → R → R
  unfolding settle forward buffer_push log_append buffer_pop log_complete
  handle_inbound env from msg r =
      if is_control msg
      then handle_control env from msg r
      else settle env from msg (forward env msg (buffer_push env from msg (log_append env msg r)))

  unfoldable pub handle_outbound : Message → R → R
  handle_outbound msg r = elim (lookup msg.channel r.sidecars) [
    | none ↦ r
    | some sc ↦ send (to_sidecar sc msg) r
  ]

  -- One pending entry of `ReplayWAL`.
  replay_entry : Env → WalEntry → R → R
  replay_entry env e r = elim (e.msg) [
    | none ↦ r
    | some msg ↦
        let (r', taken) = forward env msg r in
        if taken
        then (elim (r'.wal) [
          | none ↦ r'
          | some w ↦ record r' { wal = some (mark_complete json env.complete_ok env.ts e.id w).0 }
        ])
        else r'
  ]

  replay_all : Env → List WalEntry → R → R
  replay_all env [] r = r
  replay_all env (e ∷ es) r = replay_all env es (replay_entry env e r)

  unfoldable pub replay_wal : Env → R → R
  unfolding replay_all replay_entry forward
  replay_wal env r = elim (r.wal) [
    | none ↦ r
    | some w ↦ replay_all env (pending_entries w.entries) r
  ]

  shutdown_all : Env → Dict SidecarConn → R → R
  shutdown_all env [] r = r
  shutdown_all env ((channel, sc) ∷ m) r =
      shutdown_all env m (send (to_sidecar sc (new_message env.uuid env.now shutdown channel [])) r)

  -- In no particular order of the channels.
  unfoldable pub send_shutdown : Env → R → R
  unfolding shutdown_all
  send_shutdown env r = shutdown_all env r.sidecars r
