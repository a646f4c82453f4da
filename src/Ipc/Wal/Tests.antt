-- ===== src/Ipc/Wal/Tests.antt =====
-- The log on concrete histories, with entries that stand for their own lines.
use k8s4claw.Base.{true, false, List, [], ◌∷◌}
use k8s4claw.Ipc.Wal.{WalEntry, Wal, entry_of}
use k8s4claw.Ipc.Wal.Durable.{Call, appending, completing, incrementing, flushing, compacting}
use k8s4claw.Ipc.Wal.Examples.{hello, world}

abbrev history : List Call
history =
    appending true "t" hello
    ∷ appending true "t" world
    ∷ incrementing true "u" "m2"
    ∷ completing true "v" "m1"
    ∷ flushing true true
    ∷ compacting (λ s. false)
    ∷ []

abbrev waiting : WalEntry
waiting = record (entry_of "u" world) { attempts = 2 }

abbrev compacted : Wal WalEntry
compacted = record {
  lines = waiting ∷ [];
  flushed = 1;
  opened = true;
  entries = ("m2", waiting) ∷ [];
}
