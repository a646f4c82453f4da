-- ===== src/Sdk/Channel/Tests.antt =====
-- A client of a channel with three messages that wait.
use k8s4claw.Base.{
  ℕ, zero, suc, ◌≤◌, ◌≢◌, ◌≡◌, refl, true, false, none, some, [], ◌∷◌, pos, arith, length, String,
  Bool, List,
}
use k8s4claw.Ipc.Message.{Message, MessageType, message, slow_down, resume, shutdown}
use k8s4claw.Sdk.Channel.Buffer.{Buffer, new_buffer, capacity_of}
use k8s4claw.Sdk.Channel.Buffer.Fifo.{pushes, pops, drains, run, IsQueue, run-IsQueue}
use k8s4claw.Sdk.Channel.Options.{ClientConfig}
use k8s4claw.Sdk.Channel.Client.{
  Client, new_client, replay_buffer, handle_all, panicked, apply_settings,
}
use k8s4claw.Sdk.Channel.Client.Replay.{replay_buffer_loses, IsKept, transmit-IsKept}
use k8s4claw.Sdk.Channel.Client.Alternation.{alternating_safe}

abbrev of_type : String → MessageType → Message
of_type id type = record {
  id = id;
  type = type;
  channel = "chat";
  correlation_id = "";
  reply_to = "";
  timestamp = 7;
  payload = [];
}

abbrev msg : String → Message
msg id = of_type id message

abbrev config : ClientConfig
config = record {
  socket_path = "/var/run/claw/bus.sock";
  channel_name = "chat";
  channel_mode = "";
  buffer_size = pos 3;
  reconnect_interval = 2_000_000_000;
  heartbeat_interval = 30_000_000_000;
}

abbrev full_buffer : Buffer Message
full_buffer = record { items = msg "a" ∷ msg "b" ∷ msg "c" ∷ []; capacity = 3 }

abbrev client : Client
client = record {
  cfg = config;
  conn = some 1;
  connected = true;
  reconnecting = false;
  buf = full_buffer;
  throttled = true;
  throttle_ch = 1;
  closed_chs = 0 ∷ [];
  next_ch = 2;
  inbound = [];
  is_done = false;
}

run-IsQueue_example :
    let ops = pushes (msg "d") ∷ pops ∷ pushes (msg "e") ∷ drains ∷ [] in
    IsQueue full_buffer (run ops full_buffer) × (length (run ops full_buffer).buffer.items ≤ 3)
run-IsQueue_example =
    run-IsQueue (pushes (msg "d") ∷ pops ∷ pushes (msg "e") ∷ drains ∷ []) full_buffer (omega arith)

abbrev only_first : ℕ → Bool
only_first zero = true
only_first (suc n) = false

replay_buffer_loses_example :
    ((replay_buffer (λ i. true) client).written ≡ client.buf.items)
    × ((replay_buffer (λ i. true) client).client.buf.items ≡ [])
    × ((replay_buffer only_first client).written ≡ msg "a" ∷ [])
    × ((replay_buffer only_first client).client.buf.items ≡ msg "b" ∷ [])
replay_buffer_loses_example =
    replay_buffer_loses (λ i. true) only_first client (msg "a" ∷ []) (msg "c" ∷ []) (msg "b") refl
      (omega arith) (refl, (refl, (refl, tt))) (refl, tt) refl

transmit-IsKept_example : IsKept false (msg "d") client
transmit-IsKept_example = transmit-IsKept false (msg "d") client

abbrev fresh : Client
fresh = record client {
  conn = none;
  connected = false;
  buf = record { items = []; capacity = 3 };
  throttled = false;
  throttle_ch = 0;
  closed_chs = [];
  next_ch = 1;
}

abbrev signals : List (Bool × Message)
signals =
    (true, of_type "1" slow_down)
    ∷ (true, msg "a")
    ∷ (true, of_type "2" resume)
    ∷ (true, of_type "3" shutdown)
    ∷ (true, msg "b")
    ∷ []

alternating_safe_example : handle_all signals fresh ≢ panicked
unfolding new_client apply_settings new_buffer capacity_of
alternating_safe_example = alternating_safe config [] fresh signals refl refl
