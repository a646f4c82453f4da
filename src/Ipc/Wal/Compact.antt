-- ===== src/Ipc/Wal/Compact.antt =====
-- Compaction: the file is replaced by the lines of the pending entries.
use k8s4claw.Base.{
  suc, ◌≡◌, ◌⊎◌, inl, inr, refl, ap, sym, ◌∙◌, String, Bool, true, Option, none, some, List, All,
  [], ◌∷◌, arith, Option-cases, eq_iff, Dict, lookup, lookup-insert, length,
}
use k8s4claw.Ipc.Wal.{
  pending, WalEntry, WalJson, Wal, apply_entry, apply_line, recover, pending_entries, marshal_all,
  compact, CompactStep,
}
use k8s4claw.Ipc.Wal.Recover.{IsKeyed, Fits}
use k8s4claw.Ipc.Wal.Replay.{IsReplayed}

-- What a map answers that is laid over another.
abbrev over : Dict WalEntry → Dict WalEntry → String → Option WalEntry
over m m' id = elim (lookup id m) [ none ↦ lookup id m' | some e ↦ some e ]

over_nil : (id : String) (m : Dict WalEntry) → over m [] id ≡ lookup id m
unfolding lookup
over_nil id m = ground arith

over_step :
    (k id : String) (e : WalEntry) (m m' : Dict WalEntry)
    → e.id ≡ k
    → e.state ≡ pending
    → lookup k m ≡ none
    → over m (apply_entry e m') id ≡ over ((k, e) ∷ m) m' id
unfolding apply_entry lookup
over_step k id e m m' own waiting once =
    ground (arith, eq_iff k id, eq_iff e.id id, lookup-insert e.id id e m')

length-pending_entries : (m : Dict WalEntry) → length (pending_entries m) ≡ length m
unfolding pending_entries
length-pending_entries [] = refl
length-pending_entries ((k, e) ∷ m) = ap suc (length-pending_entries m)

module _ (json : WalJson) where
  open json use {Line, marshal, unmarshal, size}

  length-marshal_all :
      (es : List WalEntry) (ls : List Line) → marshal_all json es ≡ some ls → length ls ≡ length es
  unfolding marshal_all
  length-marshal_all [] ls q = ground arith
  length-marshal_all (e ∷ es) ls q = elim (Option-cases (marshal_all json es)) [
    | inl bad ↦ absurd (ground arith)
    | inr (ks, good) ↦ ground (arith, length-marshal_all es ks good)
  ]

  compact_bad :
      (w : Wal Line) (fails : CompactStep → Bool)
      → marshal_all json (pending_entries w.entries) ≡ none
      → ((compact json fails w).0.lines ≡ w.lines) × ((compact json fails w).0.entries ≡ w.entries)
  unfolding compact
  compact_bad w fails bad = ground arith

  compact-cases :
      (w : Wal Line) (fails : CompactStep → Bool) (ls : List Line)
      → marshal_all json (pending_entries w.entries) ≡ some ls
      → (((compact json fails w).0.lines ≡ w.lines)
          × ((compact json fails w).0.entries ≡ w.entries))
        ⊎ (((compact json fails w).0.lines ≡ ls) × ((compact json fails w).0.entries ≡ w.entries))
  unfolding compact
  compact-cases w fails ls all = ground arith

  recover-cons :
      (e : WalEntry) (l : Line) (ls : List Line) (m : Dict WalEntry)
      → marshal e ≡ some l
      → Fits json e
      → recover json (l ∷ ls) m ≡ recover json ls (apply_entry e m)
  unfolding recover apply_line
  recover-cons e l ls m has fits = ground (arith, (fits l has).0, (fits l has).1)

  -- The lines of the entries recover to a map that answers as they do, laid over the start.
  recover-marshal_all :
      (m : Dict WalEntry) (ls : List Line) (m' : Dict WalEntry)
      → IsKeyed m
      → All (Fits json) (pending_entries m)
      → marshal_all json (pending_entries m) ≡ some ls
      → (found : Dict WalEntry) × (recover json ls m' ≡ some found)
        × ((id : String) → lookup id found ≡ over m m' id)
  unfolding marshal_all pending_entries recover lookup
  recover-marshal_all [] ls m' key fits q =
      (m', (let e : ls ≡ [] = ground arith in rw e), λ id. refl)
  recover-marshal_all ((k, e) ∷ m) ls m' key (fit, fits) q = elim (Option-cases (marshal e)) [
    | inl bad ↦ absurd (ground arith)
    | inr (l, line) ↦ elim (Option-cases (marshal_all json (pending_entries m))) [
      | inl bad ↦ absurd (ground arith)
      | inr (ks, good) ↦
          let (found, replays, agrees) =
            recover-marshal_all m ks (apply_entry e m') key.3 fits good in
          (
            found,
            (let split : ls ≡ l ∷ ks = ground arith in
                rw split (recover-cons e l ks m' line fit ∙ replays)),
            λ id. agrees id ∙ over_step k id e m m' key.0 key.1 key.2,
          )
    ]
  ]

  replaced-IsReplayed :
      (w v : Wal Line) (ls : List Line)
      → All (Fits json) (pending_entries w.entries)
      → IsReplayed json w
      → marshal_all json (pending_entries w.entries) ≡ some ls
      → v.lines ≡ ls
      → v.entries ≡ w.entries
      → IsReplayed json v
  replaced-IsReplayed w v ls fits r all new kept =
      let (found, replays, agrees) = recover-marshal_all w.entries ls [] r.keyed fits all in
      record {
        found = found;
        replays = rw new replays;
        agrees = λ id. agrees id ∙ over_nil id w.entries ∙ ap (λ m. lookup id m) (sym kept);
        keyed = rw kept r.keyed;
      }

  same-IsReplayed :
      (w v : Wal Line)
      → IsReplayed json w
      → v.lines ≡ w.lines
      → v.entries ≡ w.entries
      → IsReplayed json v
  same-IsReplayed w v r lines kept = record {
    found = r.found;
    replays = rw lines r.replays;
    agrees = λ id. r.agrees id ∙ ap (λ m. lookup id m) (sym kept);
    keyed = rw kept r.keyed;
  }

  -- Wherever `Compact` stops, the file recovers to the entries, which it leaves alone.
  pub compact-IsReplayed :
      (w : Wal Line) (fails : CompactStep → Bool)
      → All (Fits json) (pending_entries w.entries)
      → IsReplayed json w
      → IsReplayed json (compact json fails w).0
  compact-IsReplayed w fails fits r =
      elim (Option-cases (marshal_all json (pending_entries w.entries))) [
        | inl bad ↦
            same-IsReplayed w (compact json fails w).0 r (compact_bad w fails bad).0
              (compact_bad w fails bad).1
        | inr (ls, all) ↦ elim (compact-cases w fails ls all) [
          | inl (lines, kept) ↦ same-IsReplayed w (compact json fails w).0 r lines kept
          | inr (new, kept) ↦ replaced-IsReplayed w (compact json fails w).0 ls fits r all new kept
        ]
      ]

  -- A compaction that succeeds leaves exactly one line for each pending entry, all of them on
  -- disk.
  compact_shrinks :
      (w : Wal Line) (fails : CompactStep → Bool)
      → (compact json fails w).1 ≡ true
      → (length (compact json fails w).0.lines ≡ length w.entries)
        × ((compact json fails w).0.flushed ≡ length w.entries)
  unfolding compact
  compact_shrinks w fails done =
      elim (Option-cases (marshal_all json (pending_entries w.entries))) [
        | inl bad ↦ absurd (ground arith)
        | inr (ls, all) ↦ ground (
          arith,
          length-marshal_all (pending_entries w.entries) ls all,
          length-pending_entries w.entries,
        )
      ]
