-- ===== src/Ipc/Wal.antt =====
-- The write-ahead log: internal/ipcbus/wal.go.
-- The file is the list of lines written to it, oldest first, of which the first `flushed` are
-- known to have left the buffered writer: a crash of the process keeps at least those. Each method
-- runs under the log's lock. Whether a call of the operating system fails is an argument.
-- `Attempts` counts upwards from 1 in all that the log writes itself, so it is a ℕ.
pub mod Recover
pub mod Replay
pub mod Compact
pub mod Durable
pub mod Attempts
pub mod Examples
mod Tests
use k8s4claw.Base.{
  ℕ, suc, ◌+◌, ◌*◌, ◌≡◌, String, Bool, true, false, not, ◌&&◌, ◌||◌, Option, none, some, List, [],
  ◌∷◌, ◌++◌, if◌then◌else◌, leb, ltb, length, Dict, lookup, insert, delete,
}
use k8s4claw.Ipc.Message.{Message}
use k8s4claw.Ipc.Framing.{max_message_size}

-- `WALState` is a string: `other` stands for every value that is none of the constants.
pub data WalState : Type 0 where
  pending complete dlq : WalState
  other : String → WalState

pub record WalEntry : Type 0 where
  pub id : String
  pub channel : String
  pub state : WalState
  pub attempts : ℕ
  pub ts : String
  pub msg : Option Message

-- `encoding/json` on an entry.
pub record WalJson : Type 1 where
  pub Line : Type 0
  pub marshal : WalEntry → Option Line
  pub unmarshal : Line → Option WalEntry
  -- The bytes of a line, without its newline.
  pub size : Line → ℕ

abbrev pub compaction_threshold : ℕ
compaction_threshold = 10 * 1024 * 1024

pub record Wal (Line : Type 0) : Type 0 where
  pub lines : List Line
  pub flushed : ℕ
  -- Whether `w.file` can still be written.
  pub opened : Bool
  pub entries : Dict WalEntry

-- What one entry of the log does to the pending entries.
unfoldable pub apply_entry : WalEntry → Dict WalEntry → Dict WalEntry
apply_entry e m = elim (e.state) [
  | pending ↦ insert e.id e m
  | complete ↦ delete e.id m
  | dlq ↦ delete e.id m
  | other s ↦ m
]

-- The entry that `Append` makes of a message.
unfoldable pub entry_of : String → Message → WalEntry
entry_of now msg = record {
  id = msg.id;
  channel = msg.channel;
  state = pending;
  attempts = 1;
  ts = now;
  msg = some msg;
}

-- In no particular order.
unfoldable pub pending_entries : Dict WalEntry → List WalEntry
pending_entries [] = []
pending_entries ((k, e) ∷ m) = e ∷ pending_entries m

-- `ok` says whether the writer's flush succeeds, `synced` whether the sync does.
unfoldable pub flush : {Line : Type 0} → Bool → Bool → Wal Line → Wal Line × Bool
flush ok synced w =
    if ok && w.opened then (record w { flushed = length w.lines }, synced) else (w, false)

-- A failed flush or sync leaves the file open; `closed` says whether the close succeeds.
unfoldable pub close : {Line : Type 0} → Bool → Bool → Bool → Wal Line → Wal Line × Bool
close ok synced closed w =
    let (w', done) = flush ok synced w in
    if done then (record w' { opened = false }, closed) else (w', false)

-- `file_size` is what the file system says, `none` if it does not.
unfoldable pub needs_compaction : Option ℕ → Bool
needs_compaction none = false
needs_compaction (some file_size) = ltb compaction_threshold file_size

-- The calls of `Compact` that can fail.
pub data CompactStep : Type 0 where
  create write flush_tmp sync_tmp close_tmp flush_wal close_wal rename reopen : CompactStep

module _ (json : WalJson) where
  open json use {Line, marshal, unmarshal, size}

  -- A line that does not parse is skipped.
  unfoldable pub apply_line : Line → Dict WalEntry → Dict WalEntry
  apply_line l m = elim (unmarshal l) [ none ↦ m | some e ↦ apply_entry e m ]

  -- The scanner's buffer holds `max_message_size` bytes: a line that does not leave room for its
  -- newline stops it with an error, `none`.
  unfoldable pub recover : List Line → Dict WalEntry → Option (Dict WalEntry)
  recover [] m = some m
  recover (l ∷ ls) m =
      let rest = recover ls (apply_line l m) in if leb max_message_size (size l) then none else rest

  -- The lines that a crash has left, or those of an orderly stop.
  unfoldable pub new_wal : List Line → Option (Wal Line)
  new_wal ls = elim (recover ls []) [
    | none ↦ none
    | some m ↦ some (record { lines = ls; flushed = length ls; opened = true; entries = m })
  ]

  -- `ok` says whether the writer takes the line. The result is the log after it.
  unfoldable pub append_entry : Bool → WalEntry → Wal Line → Option (Wal Line)
  append_entry ok e w = elim (marshal e) [
    | none ↦ none
    | some l ↦ if ok then some (record w { lines = w.lines ++ (l ∷ []) }) else none
  ]

  -- Every operation returns the log, changed or not, and whether it succeeded.
  unfoldable pub append : Bool → String → Message → Wal Line → Wal Line × Bool
  append ok now msg w = elim (append_entry ok (entry_of now msg) w) [
    | none ↦ (w, false)
    | some w' ↦ (record w' { entries = insert msg.id (entry_of now msg) w.entries }, true)
  ]

  -- The end of `Complete` and `MarkDLQ`, which differ in the state that they record.
  finish : WalState → Bool → String → String → WalEntry → Wal Line → Wal Line × Bool
  finish s ok now id e w =
      let closing : WalEntry = record {
        id = e.id;
        channel = e.channel;
        state = s;
        attempts = e.attempts;
        ts = now;
        msg = none;
      } in
      elim (append_entry ok closing w) [
        | none ↦ (w, false)
        | some w' ↦ (record w' { entries = delete id w.entries }, true)
      ]

  unfoldable pub mark_complete : Bool → String → String → Wal Line → Wal Line × Bool
  unfolding finish
  mark_complete ok now id w = elim (lookup id w.entries) [
    | none ↦ (w, false)
    | some e ↦ finish complete ok now id e w
  ]

  unfoldable pub mark_dlq : Bool → String → String → Wal Line → Wal Line × Bool
  unfolding finish
  mark_dlq ok now id w = elim (lookup id w.entries) [
    | none ↦ (w, false)
    | some e ↦ finish dlq ok now id e w
  ]

  -- The entry in memory is bumped before the write, and stays bumped if the write fails. The
  -- number is the new attempt count, 0 beside an error.
  unfoldable pub increment_attempts : Bool → String → String → Wal Line → Wal Line × ℕ × Bool
  increment_attempts ok now id w = elim (lookup id w.entries) [
    | none ↦ (w, 0, false)
    | some e ↦
        let e' : WalEntry = record e { attempts = e.attempts + 1; ts = now } in
        let w' : Wal Line = record w { entries = insert id e' w.entries } in
        elim (append_entry ok e' w') [ none ↦ (w', 0, false) | some w'' ↦ (w'', e'.attempts, true) ]
  ]

  -- The lines of the temporary file; `none` if an entry has no JSON.
  unfoldable pub marshal_all : List WalEntry → Option (List Line)
  marshal_all [] = some []
  marshal_all (e ∷ es) = elim (marshal e) [
    | none ↦ none
    | some l ↦ elim (marshal_all es) [ none ↦ none | some ls ↦ some (l ∷ ls) ]
  ]

  -- The end of `Compact`, once the temporary file is complete.
  replace_file : (CompactStep → Bool) → List Line → Wal Line → Wal Line × Bool
  replace_file fails ls w =
      let w' : Wal Line = record w { flushed = length w.lines } in
      if fails flush_wal || not w.opened
      then (w, false)
      else (if fails close_wal || fails rename then (record w' { opened = false }, false) else (
        record w' { lines = ls; flushed = length ls; opened = not (fails reopen) },
        not (fails reopen),
      ))

  unfoldable pub compact : (CompactStep → Bool) → Wal Line → Wal Line × Bool
  unfolding replace_file
  compact fails w = elim (marshal_all (pending_entries w.entries)) [
    | none ↦ (w, false)
    | some ls ↦
        if fails create || fails write || fails flush_tmp || fails sync_tmp || fails close_tmp
        then (w, false)
        else replace_file fails ls w
  ]
