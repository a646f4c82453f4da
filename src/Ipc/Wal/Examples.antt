-- ===== src/Ipc/Wal/Examples.antt =====
-- A JSON that is the entry itself, and small logs.
use k8s4claw.Base.{ℕ, sym, true, some, [], ◌∷◌, arith}
use k8s4claw.Ipc.Message.{Message, message}
use k8s4claw.Ipc.Wal.{WalEntry, WalJson, Wal, entry_of}
use k8s4claw.Ipc.Wal.Recover.{Fits}

-- Every line has the given size.
abbrev pub sized : ℕ → WalJson
sized n = record { Line = WalEntry; marshal = λ e. some e; unmarshal = λ e. some e; size = λ e. n }

abbrev pub plain : WalJson
plain = sized 100

pub plain-Fits : (e : WalEntry) → Fits plain e
plain-Fits e l h = (sym h, omega arith)

abbrev pub hello : Message
hello = record {
  id = "m1";
  type = message;
  channel = "slack";
  correlation_id = "";
  reply_to = "";
  timestamp = 7;
  payload = [];
}

abbrev pub world : Message
world = record hello { id = "m2" }

abbrev pub empty : Wal WalEntry
empty = record { lines = []; flushed = 0; opened = true; entries = [] }

abbrev pub one : Wal WalEntry
one = record {
  lines = entry_of "t" hello ∷ [];
  flushed = 0;
  opened = true;
  entries = ("m1", entry_of "t" hello) ∷ [];
}
