-- ===== src/Ipc/Wal/Durable.antt =====
-- Whole histories of the log, and what a crash leaves of them.
use mathlib.Core.Path.{subst}
use k8s4claw.Base.{
  ℕ, zero, suc, ◌≤◌, ◌≡◌, inl, inr, refl, ap, String, Bool, true, Option, none, some, List, All, [],
  ◌∷◌, ◌++◌, arith, Option-cases, Dict, lookup, if◌then◌else◌, length, take,
}
use k8s4claw.Ipc.Message.{Message}
use k8s4claw.Ipc.Wal.{
  WalEntry, WalJson, Wal, apply_entry, apply_line, recover, new_wal, append_entry, append, entry_of,
  mark_complete, mark_dlq, increment_attempts, flush, compact, CompactStep, complete, dlq,
  pending_entries,
}
use k8s4claw.Ipc.Wal.Recover.{IsKeyed, Fits, insert-IsKeyed, delete-IsKeyed}
use k8s4claw.Ipc.Wal.Replay.{IsReplayed, closing, bump}

apply_entry-IsKeyed : (e : WalEntry) (m : Dict WalEntry) → IsKeyed m → IsKeyed (apply_entry e m)
unfolding apply_entry
apply_entry-IsKeyed e m h = ground (arith, insert-IsKeyed m e e.id h refl, delete-IsKeyed m e.id h)

apply_line-IsKeyed :
    (json : WalJson) (l : json.Line) (m : Dict WalEntry) → IsKeyed m → IsKeyed (apply_line json l m)
unfolding apply_line
apply_line-IsKeyed json l m key = elim (Option-cases (json.unmarshal l)) [
  | inl bad ↦ rw (bad, apply_line) key
  | inr (e, good) ↦ rw (good, apply_line) (apply_entry-IsKeyed e m key)
]

-- The calls of the log, each with what its environment does.
pub data Call : Type 0 where
  appending : Bool → String → Message → Call
  completing marking incrementing : Bool → String → String → Call
  flushing : Bool → Bool → Call
  compacting : (CompactStep → Bool) → Call

take_before : {A : Type 0} (k : ℕ) (xs ys : List A) → k ≤ length xs → take k (xs ++ ys) ≡ take k xs
take_before zero xs ys h = refl
take_before (suc k) [] ys h = absurd (omega arith)
take_before (suc k) (x ∷ xs) ys h = ap (λ t. x ∷ t) (take_before k xs ys (omega arith))

module _ (json : WalJson) where
  open json use {Line, marshal, unmarshal, size}

  unfoldable pub call : Call → Wal Line → Wal Line × Bool
  call (appending ok now msg) w = append json ok now msg w
  call (completing ok now id) w = mark_complete json ok now id w
  call (marking ok now id) w = mark_dlq json ok now id w
  call (incrementing ok now id) w =
      let (w', n, done) = increment_attempts json ok now id w in (w', done)
  call (flushing ok synced) w = flush ok synced w
  call (compacting fails) w = compact json fails w

  -- The calls in order, up to the first that fails.
  unfoldable pub run : List Call → Wal Line → Option (Wal Line)
  run [] w = some w
  run (c ∷ cs) w = let (w', done) = call c w in let rest = run cs w' in if done then rest else none

  recover-IsKeyed :
      (ls : List Line) (m found : Dict WalEntry)
      → IsKeyed m
      → recover json ls m ≡ some found
      → IsKeyed found
  unfolding recover
  recover-IsKeyed [] m found key q = ground arith
  recover-IsKeyed (l ∷ ls) m found key q =
      recover-IsKeyed ls (apply_line json l m) found (apply_line-IsKeyed json l m key)
        (ground arith)

  recovered-IsReplayed :
      (ls : List Line) (m : Dict WalEntry)
      → recover json ls [] ≡ some m
      → IsReplayed json (record { lines = ls; flushed = length ls; opened = true; entries = m })
  recovered-IsReplayed ls m q = record {
    found = m;
    replays = q;
    agrees = λ id. refl;
    keyed = recover-IsKeyed ls [] m tt q;
  }

  -- A log that opens answers as its lines say.
  pub new_wal-IsReplayed :
      (ls : List Line) (w : Wal Line) → new_wal json ls ≡ some w → IsReplayed json w
  unfolding new_wal
  new_wal-IsReplayed ls w q = elim (Option-cases (recover json ls [])) [
    | inl bad ↦ absurd (ground arith)
    | inr (m, good) ↦ subst (λ v. IsReplayed json v) (ground arith) (recovered-IsReplayed ls m good)
  ]

  -- The entry that is made of the one of an identifier, if there is one.
  abbrev made : (WalEntry → WalEntry) → Option WalEntry → List WalEntry
  made f none = []
  made f (some e) = f e ∷ []

  -- The entries that a call writes, if it gets that far.
  abbrev pub writes : Call → Wal Line → List WalEntry
  writes (appending ok now msg) w = entry_of now msg ∷ []
  writes (completing ok now id) w = made (closing complete now) (lookup id w.entries)
  writes (marking ok now id) w = made (closing dlq now) (lookup id w.entries)
  writes (incrementing ok now id) w = made (bump now) (lookup id w.entries)
  writes (flushing ok synced) w = []
  writes (compacting fails) w = pending_entries w.entries

  -- The entries that the calls write fit the scanner and read back.
  abbrev pub RunFits : List Call → Wal Line → Type 0
  RunFits [] w = Unit
  RunFits (c ∷ cs) w = All (Fits json) (writes c w) × RunFits cs (call c w).0

  -- `Append` alone is not durable: after a successful one a crash can leave the very lines that
  -- a crash before it could leave, and the message is not recovered.
  append_lost :
      (w : Wal Line) (ok : Bool) (now : String) (msg : Message)
      → w.flushed ≤ length w.lines
      → (append json ok now msg w).1 ≡ true
      → ((append json ok now msg w).0.flushed ≡ w.flushed)
        × (take w.flushed (append json ok now msg w).0.lines ≡ take w.flushed w.lines)
  unfolding append append_entry
  append_lost w ok now msg h done = elim (Option-cases (marshal (entry_of now msg))) [
    | inl bad ↦ absurd (ground arith)
    | inr (l, line) ↦ ground (arith, take_before w.flushed w.lines (l ∷ []))
  ]
