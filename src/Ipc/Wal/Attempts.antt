-- ===== src/Ipc/Wal/Attempts.antt =====
-- What the operations do to the entry of one message.
use k8s4claw.Base.{
  ◌+◌, ◌≡◌, ◌⊎◌, inl, inr, refl, ◌∙◌, String, Bool, true, none, some, arith, Option-cases, lookup,
  lookup-insert, lookup-delete, str_eq, eq_refl, if◌then◌else◌,
}
use k8s4claw.Ipc.Message.{Message}
use k8s4claw.Ipc.Wal.{
  WalEntry, WalJson, Wal, append_entry, append, entry_of, mark_complete, finish, increment_attempts,
}

-- An increment bumps the entry, written or not.
increment_attempts_entry :
    (json : WalJson) (ok : Bool) (ts id : String) (v : Wal json.Line) (e : WalEntry)
    → lookup id v.entries ≡ some e
    → let (v', attempts, done) = increment_attempts json ok ts id v in
      ((attempts ≡ 0) ⊎ (attempts ≡ e.attempts + 1))
      × (lookup id v'.entries ≡ some (record e { attempts = e.attempts + 1; ts = ts }))
unfolding increment_attempts append_entry
increment_attempts_entry json ok ts id v e has = ground (
  arith,
  has,
  eq_refl id,
  lookup-insert id id (record e { attempts = e.attempts + 1; ts = ts }) v.entries,
)

module _ (json : WalJson) (ok : Bool) (ts : String) (msg : Message) (w : Wal json.Line) where
  -- A successful append adds the entry of the message and leaves the others.
  pub lookup-append :
      (id : String)
      → (append json ok ts msg w).1 ≡ true
      → lookup id (append json ok ts msg w).0.entries
        ≡ (if str_eq msg.id id then some (entry_of ts msg) else lookup id w.entries)
  unfolding append
  lookup-append id done = elim (Option-cases (append_entry json ok (entry_of ts msg) w)) [
    | inl failed ↦ absurd (ground arith)
    | inr (w', did) ↦ rw (did, append) (lookup-insert msg.id id (entry_of ts msg) w.entries)
  ]

  -- The first retry of an appended message is its second attempt, written or not.
  pub increment_attempts-append :
      (again : Bool)
      → (append json ok ts msg w).1 ≡ true
      → let (w', attempts, done) =
          increment_attempts json again ts msg.id (append json ok ts msg w).0 in
        ((attempts ≡ 0) ⊎ (attempts ≡ 2))
        × (e : WalEntry) × (lookup msg.id w'.entries ≡ some e)
        × (e.attempts ≡ 2)
        × (e.msg ≡ some msg)
  unfolding entry_of
  increment_attempts-append again done =
      let has : lookup msg.id (append json ok ts msg w).0.entries ≡ some (entry_of ts msg) =
        lookup-append msg.id done ∙ ground (arith, eq_refl msg.id) in
      let (count, bumped) =
        increment_attempts_entry json again ts msg.id (append json ok ts msg w).0 (entry_of ts msg)
          has in
      (count, record (entry_of ts msg) { attempts = 2; ts = ts }, bumped, refl, refl)

module _ (json : WalJson) (ok : Bool) (ts id : String) (w : Wal json.Line) where
  -- A successful completion removes the entry and leaves the others.
  pub lookup-mark_complete :
      (j : String)
      → (mark_complete json ok ts id w).1 ≡ true
      → lookup j (mark_complete json ok ts id w).0.entries
        ≡ (if str_eq id j then none else lookup j w.entries)
  unfolding mark_complete finish append_entry
  lookup-mark_complete j done = elim (Option-cases (lookup id w.entries)) [
    | inl absent ↦ absurd (ground arith)
    | inr (e, has) ↦ ground (arith, lookup-delete id j w.entries)
  ]
