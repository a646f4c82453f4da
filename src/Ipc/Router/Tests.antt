-- ===== src/Ipc/Router/Tests.antt =====
-- The router on concrete messages.
use k8s4claw.Base.{
  ℕ, arith, ◌≡◌, refl, String, Bool, true, false, none, some, [], ◌∷◌, lookup, insert, str_eq,
  if◌then◌else◌,
}
use k8s4claw.Ipc.Message.{Message, is_control}
use k8s4claw.Ipc.Ring.{RingBuffer, slow}
use k8s4claw.Ipc.Ring.Examples.{milli}
use k8s4claw.Ipc.Ring.Bounds.{IsValid}
use k8s4claw.Ipc.Ring.Refine.{Holds}
use k8s4claw.Ipc.Ring.Watermark.{IsMarked}
use k8s4claw.Ipc.Wal.{WalEntry, Wal, append, append_entry, entry_of, mark_complete}
use k8s4claw.Ipc.Wal.Examples.{plain, hello, one}
use k8s4claw.Ipc.Dlq.Examples.{store, Store}
use k8s4claw.Ipc.Router.{SidecarConn, Env, Router, handle_inbound}
use k8s4claw.Ipc.Router.Inbound.{delivered_completes, refused_stays_pending, dlq_untouched}
use k8s4claw.Ipc.Router.Backlog.{queued, backlog_content}

abbrev conn : SidecarConn
conn = record { channel = "slack"; mode = "register"; conn = 1 }

abbrev env : Bool → Env
env takes = record {
  uuid = "u1";
  now = 3;
  ts = "t";
  marshal_ref = λ s. [];
  append_ok = true;
  complete_ok = true;
  increment_ok = true;
  mark_ok = true;
  commit = true;
  bridge_takes = λ m. takes;
}

-- Two of three slots taken, and the sidecar told to slow down.
abbrev ring : RingBuffer ℕ Message
ring = record {
  buf = some hello ∷ some hello ∷ none ∷ [];
  size = 3;
  head = 0;
  tail = 2;
  count = 2;
  high_mark = 600;
  low_mark = 300;
  state = slow;
}

empty_store : Store
empty_store = ([], tt)

abbrev router : Router ℕ WalEntry Store
router = record {
  sidecars = ("slack", conn) ∷ [];
  buffers = ("slack", ring) ∷ [];
  bridged = true;
  wal = some one;
  dlq = some empty_store;
  dlq_max = 10;
  buffer_size = 3;
  high_watermark = 600;
  low_watermark = 300;
  outbox = [];
}

delivered_completes_example :
    (v : Wal WalEntry) × ((handle_inbound milli plain store (env true) conn hello router).wal
      ≡ some v)
    × ((id : String)
        → lookup id v.entries ≡ (if str_eq "m1" id then none else lookup id one.entries))
unfolding is_control append append_entry mark_complete entry_of lookup insert
delivered_completes_example =
    delivered_completes milli plain store (env true) conn hello router one refl refl refl refl refl
      refl

refused_stays_pending_example :
    (v : Wal WalEntry) × (e : WalEntry) × ((handle_inbound milli plain store
        (env false)
        conn
        hello
        router).wal
      ≡ some v)
    × (lookup "m1" v.entries ≡ some e)
    × (e.attempts ≡ 2)
    × (e.msg ≡ some hello)
unfolding is_control append append_entry
refused_stays_pending_example =
    refused_stays_pending milli plain store (env false) conn hello router one refl refl refl refl
      refl

dlq_untouched_example :
    (handle_inbound milli plain store (env false) conn hello router).dlq ≡ some empty_store
unfolding is_control append append_entry
dlq_untouched_example =
    dlq_untouched milli plain store (env false) conn hello router one refl refl refl

ring-IsValid : IsValid ring
ring-IsValid = omega arith

backlog_content_example :
    (rb' : RingBuffer ℕ Message) × (lookup "slack"
        (handle_inbound milli plain store (env false) conn hello router).buffers
      ≡ some rb')
    × IsValid rb'
    × Holds rb' (queued milli plain store (env false) conn hello 3 (hello ∷ hello ∷ []) false)
unfolding is_control lookup
backlog_content_example =
    backlog_content milli plain store (env false) conn hello router ring (hello ∷ hello ∷ []) refl
      refl ring-IsValid refl

ring-IsMarked : IsMarked milli ring
ring-IsMarked = record { apart = refl; calm = refl; busy = refl }
