-- ===== src/Ipc/Dlq/Tests.antt =====
-- The queue on a concrete store: an association list without repeated keys, whose values are the
-- entries themselves and whose times are numbers.
use k8s4claw.Base.{ℕ, ◌≤◌, refl, String, true, [], ◌∷◌, arith, lookup}
use k8s4claw.Ipc.Message.{Message, message}
use k8s4claw.Ipc.Dlq.{size, put_message}
use k8s4claw.Ipc.Dlq.Bounds.{put_message_bounded}
use k8s4claw.Ipc.Dlq.Examples.{Entry, Store, store}

abbrev lost : Message
lost = record {
  id = "m1";
  type = message;
  channel = "slack";
  correlation_id = "";
  reply_to = "";
  timestamp = 7;
  payload = [];
}

abbrev entry : String → ℕ → Entry
entry id t = record { id = id; channel = "slack"; attempts = 5; created_at = t; msg = lost }

two : Store
unfolding lookup
two = (("a", entry "a" 9) ∷ ("b", entry "b" 4) ∷ [], (refl, (refl, tt)))

put_message_bounded_example : size store (put_message store 2 true 12 lost 5 two).0 ≤ 2
unfolding size two
put_message_bounded_example =
    put_message_bounded store 2 true 12 lost 5 two (omega arith) (omega arith)
