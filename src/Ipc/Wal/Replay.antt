-- ===== src/Ipc/Wal/Replay.antt =====
-- What a recovery of the log finds: the pending entries of the log that wrote it.
use k8s4claw.Base.{
  ◌+◌, ◌≡◌, ◌⊎◌, inl, inr, refl, ap, ◌∙◌, String, Bool, true, none, some, [], ◌∷◌, ◌++◌, ◌&&◌,
  arith, Bool-cases, Option-cases, Dict, lookup, insert, delete,
}
use k8s4claw.Ipc.Message.{Message}
use k8s4claw.Ipc.Wal.{
  WalState, pending, complete, dlq, WalEntry, WalJson, Wal, apply_entry, apply_line, recover,
  append_entry, entry_of, append, finish, mark_complete, mark_dlq, increment_attempts, flush,
}
use k8s4claw.Ipc.Wal.Recover.{
  lookup-apply_entry, IsKeyed, lookup-IsKeyed, insert-IsKeyed, delete-IsKeyed, recover-append,
  recover-one, Fits,
}

-- The record that `finish` writes.
abbrev pub closing : WalState → String → WalEntry → WalEntry
closing s now e = record {
  id = e.id;
  channel = e.channel;
  state = s;
  attempts = e.attempts;
  ts = now;
  msg = none;
}

-- The entry with one more attempt.
abbrev pub bump : String → WalEntry → WalEntry
bump now e = record e { attempts = e.attempts + 1; ts = now }

bump-inserts :
    (now : String) (e : WalEntry) {id : String}
    → e.id ≡ id
    → e.state ≡ pending
    → (m : Dict WalEntry) (j : String)
    → lookup j (apply_entry (bump now e) m) ≡ lookup j (insert id (bump now e) m)
unfolding apply_entry
bump-inserts now e own waiting m j = ground arith

closing-deletes :
    (s : WalState) (now : String) (e : WalEntry) {id : String}
    → (s ≡ complete) ⊎ (s ≡ dlq)
    → e.id ≡ id
    → (m : Dict WalEntry) (j : String)
    → lookup j (apply_entry (closing s now e) m) ≡ lookup j (delete id m)
unfolding apply_entry
closing-deletes s now e closes same m j = ground arith

module _ (json : WalJson) where
  open json use {Line, marshal, unmarshal, size}

  -- A recovery of the lines gives a map that answers as the entries do.
  pub record IsReplayed (w : Wal Line) : Type 0 where
    pub found : Dict WalEntry
    pub replays : recover json w.lines [] ≡ some found
    pub agrees : (id : String) → lookup id found ≡ lookup id w.entries
    pub keyed : IsKeyed w.entries

  append_entry-inv :
      (ok : Bool) (e : WalEntry) (w w' : Wal Line)
      → append_entry json ok e w ≡ some w'
      → (l : Line) × (marshal e ≡ some l)
        × (w'.lines ≡ w.lines ++ (l ∷ []))
        × (w'.entries ≡ w.entries)
  unfolding append_entry
  append_entry-inv ok e w w' q = elim (Option-cases (marshal e)) [
    | inl no_json ↦ absurd (ground arith)
    | inr (l, has) ↦ (l, has, ground arith, ground arith)
  ]

  -- One more line, and the change of the entries that it stands for.
  log_line :
      (w v : Wal Line) (e : WalEntry) (l : Line)
      → Fits json e
      → IsReplayed w
      → marshal e ≡ some l
      → v.lines ≡ w.lines ++ (l ∷ [])
      → ((id : String) → lookup id (apply_entry e w.entries) ≡ lookup id v.entries)
      → IsKeyed v.entries
      → IsReplayed v
  unfolding apply_line
  log_line w v e l fits r has grown same key = record {
    found = apply_line json l r.found;
    replays =
        ap (λ ls. recover json ls []) grown
        ∙ recover-append json w.lines (l ∷ []) [] r.found r.replays
        ∙ recover-one json l r.found (fits l has).1;
    agrees = λ id.
        rw (apply_line, (fits l has).0)
          (lookup-apply_entry e r.found w.entries id r.agrees ∙ same id);
    keyed = key;
  }

  -- `Append` leaves a state that recovers to its entries, the new message included if it
  -- succeeded; if it failed, nothing has changed.
  pub append-IsReplayed :
      (w : Wal Line) (ok : Bool) (now : String) (msg : Message)
      → Fits json (entry_of now msg)
      → IsReplayed w
      → IsReplayed (append json ok now msg w).0
  unfolding append apply_entry entry_of
  append-IsReplayed w ok now msg fits r = elim (Option-cases (append_entry json ok e w)) [
    | inl failed ↦ rw (failed, append) r
    | inr (w', done) ↦
        let (l, has, grown, kept) = append_entry-inv ok e w w' done in
        rw (done, append)
          (log_line w (record w' { entries = insert msg.id e w.entries }) e l fits r has grown
            (λ id. refl) (insert-IsKeyed w.entries e msg.id r.keyed refl refl))
  ]
    where
      e : WalEntry
      e = entry_of now msg

  finish-IsReplayed :
      (w : Wal Line) (s : WalState) (ok : Bool) (now id : String) (e : WalEntry)
      → (s ≡ complete) ⊎ (s ≡ dlq)
      → lookup id w.entries ≡ some e
      → Fits json (closing s now e)
      → IsReplayed w
      → IsReplayed (finish json s ok now id e w).0
  unfolding finish
  finish-IsReplayed w s ok now id e closes has fits r =
      elim (Option-cases (append_entry json ok (closing s now e) w)) [
        | inl failed ↦ rw (failed, finish) r
        | inr (w', done) ↦
            let (l, line, grown, kept) = append_entry-inv ok (closing s now e) w w' done in
            let own = (lookup-IsKeyed w.entries id e r.keyed has).0 in
            rw (done, finish)
              (log_line w (record w' { entries = delete id w.entries }) (closing s now e) l fits r
                line grown (closing-deletes s now e closes own w.entries)
                (delete-IsKeyed w.entries id r.keyed))
      ]

  -- `Complete` and `MarkDLQ` leave a state that recovers to its entries, whether the message
  -- was pending or not and whether the write succeeded or not.
  pub mark_complete-IsReplayed :
      (w : Wal Line) (ok : Bool) (now id : String)
      → ((e : WalEntry) → lookup id w.entries ≡ some e → Fits json (closing complete now e))
      → IsReplayed w
      → IsReplayed (mark_complete json ok now id w).0
  unfolding mark_complete
  mark_complete-IsReplayed w ok now id fits r = elim (Option-cases (lookup id w.entries)) [
    | inl absent ↦ rw (absent, mark_complete) r
    | inr (e, has) ↦
        rw (has, mark_complete)
          (finish-IsReplayed w complete ok now id e (inl refl) has (fits e has) r)
  ]

  pub mark_dlq-IsReplayed :
      (w : Wal Line) (ok : Bool) (now id : String)
      → ((e : WalEntry) → lookup id w.entries ≡ some e → Fits json (closing dlq now e))
      → IsReplayed w
      → IsReplayed (mark_dlq json ok now id w).0
  unfolding mark_dlq
  mark_dlq-IsReplayed w ok now id fits r = elim (Option-cases (lookup id w.entries)) [
    | inl absent ↦ rw (absent, mark_dlq) r
    | inr (e, has) ↦
        rw (has, mark_dlq) (finish-IsReplayed w dlq ok now id e (inr refl) has (fits e has) r)
  ]

  bumped-IsReplayed :
      (w v : Wal Line) (ok : Bool) (now id : String) (e : WalEntry)
      → lookup id w.entries ≡ some e
      → append_entry json ok (bump now e) (record w { entries = insert id (bump now e) w.entries })
        ≡ some v
      → Fits json (bump now e)
      → IsReplayed w
      → IsReplayed v
  bumped-IsReplayed w v ok now id e has done fits r =
      let e' = bump now e in
      let (l, line, grown, kept) =
        append_entry-inv ok e' (record w { entries = insert id e' w.entries }) v done in
      let (own, waiting) = lookup-IsKeyed w.entries id e r.keyed has in
      log_line w v e' l fits r line grown
        (λ j. rw kept (bump-inserts now e own waiting w.entries j))
        (rw kept (insert-IsKeyed w.entries e' id r.keyed own waiting))

  -- A successful `IncrementAttempts` leaves a state that recovers to its entries, with the new
  -- number of attempts.
  pub increment_attempts-IsReplayed :
      (w : Wal Line) (ok : Bool) (now id : String)
      → (increment_attempts json ok now id w).2 ≡ true
      → ((e : WalEntry) → lookup id w.entries ≡ some e → Fits json (bump now e))
      → IsReplayed w
      → IsReplayed (increment_attempts json ok now id w).0
  unfolding increment_attempts
  increment_attempts-IsReplayed w ok now id done fits r =
      elim (Option-cases (lookup id w.entries)) [
        | inl absent ↦ rw (absent, increment_attempts) r
        | inr (e, has) ↦
            elim (Option-cases (
              append_entry json ok (bump now e)
                (record w { entries = insert id (bump now e) w.entries }))) [
                  | inl failed ↦ absurd (ground arith)
                  | inr (v, did) ↦
                      rw (has, did, increment_attempts)
                        (bumped-IsReplayed w v ok now id e has did (fits e has) r)
                ]
      ]

  -- A flush changes no line and no entry.
  pub flush-IsReplayed :
      (w : Wal Line) (ok synced : Bool) → IsReplayed w → IsReplayed (flush ok synced w).0
  unfolding flush
  flush-IsReplayed w ok synced r = elim (Bool-cases (ok && w.opened)) [
    | inl ready ↦
        rw (ready, flush)
          (record { found = r.found; replays = r.replays; agrees = r.agrees; keyed = r.keyed })
    | inr shut ↦ rw (shut, flush) r
  ]
