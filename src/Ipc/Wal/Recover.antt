-- ===== src/Ipc/Wal/Recover.antt =====
-- Replaying the lines of the log.
use mathlib.Core.Path.{subst}
use k8s4claw.Base.{
  ◌≤◌, ◌<◌, ◌≡◌, inl, inr, refl, ◌∙◌, String, none, some, List, [], ◌∷◌, ◌++◌, arith, Bool-cases,
  eq_iff, Dict, lookup, insert, delete, str_eq, lookup-insert, lookup-delete,
}
use k8s4claw.Ipc.Framing.{max_message_size}
use k8s4claw.Ipc.Wal.{pending, WalEntry, WalJson, apply_entry, apply_line, recover}

-- What an entry does depends only on what the map answers.
pub lookup-apply_entry :
    (e : WalEntry) (m m' : Dict WalEntry) (id : String)
    → ((j : String) → lookup j m ≡ lookup j m')
    → lookup id (apply_entry e m) ≡ lookup id (apply_entry e m')
unfolding apply_entry
lookup-apply_entry e m m' id h = ground (
  arith,
  h id,
  lookup-insert e.id id e m,
  lookup-insert e.id id e m',
  lookup-delete e.id id m,
  lookup-delete e.id id m',
)

-- The pending entries are stored under their own identifiers, once each, in the state `pending`.
abbrev pub IsKeyed : Dict WalEntry → Type 0
IsKeyed [] = Unit
IsKeyed ((k, e) ∷ m) = (e.id ≡ k) × (e.state ≡ pending) × (lookup k m ≡ none) × IsKeyed m

pub lookup-IsKeyed :
    (m : Dict WalEntry) (id : String) (e : WalEntry)
    → IsKeyed m
    → lookup id m ≡ some e
    → (e.id ≡ id) × (e.state ≡ pending)
unfolding lookup
lookup-IsKeyed [] id e h q = cc
lookup-IsKeyed ((k, e') ∷ m) id e h q = ground (arith, eq_iff k id, lookup-IsKeyed m id e h.3)

pub insert-IsKeyed :
    (m : Dict WalEntry) (e : WalEntry) (id : String)
    → IsKeyed m
    → e.id ≡ id
    → e.state ≡ pending
    → IsKeyed (insert id e m)
unfolding insert lookup
insert-IsKeyed [] e id h p q = (p, q, refl, tt)
insert-IsKeyed ((k, e') ∷ m) e id h p q = elim (Bool-cases (str_eq k id)) [
  | inl same ↦ rw same (p, q, subst (λ t. lookup t m ≡ none) ((eq_iff k id).0 same) h.2, h.3)
  | inr diff ↦ rw diff (
    h.0,
    h.1,
    lookup-insert id k e m ∙ ground (arith, eq_iff k id, eq_iff id k, h.2),
    insert-IsKeyed m e id h.3 p q,
  )
]

pub delete-IsKeyed : (m : Dict WalEntry) (id : String) → IsKeyed m → IsKeyed (delete id m)
unfolding delete
delete-IsKeyed [] id h = h
delete-IsKeyed ((k, e) ∷ m) id h = elim (Bool-cases (str_eq k id)) [
  | inl same ↦ rw same (delete-IsKeyed m id h.3)
  | inr diff ↦ rw diff (
    h.0,
    h.1,
    lookup-delete id k m ∙ ground (arith, eq_iff k id, eq_iff id k, h.2),
    delete-IsKeyed m id h.3,
  )
]

module _ (json : WalJson) where
  open json use {Line, marshal, unmarshal, size}

  -- The entry reads back from the line it is written as, and the line fits the scanner's buffer.
  abbrev pub Fits : WalEntry → Type 0
  Fits e = (l : Line) → marshal e ≡ some l → (unmarshal l ≡ some e) × (size l < max_message_size)

  pub recover-one :
      (l : Line) (m : Dict WalEntry)
      → size l < max_message_size
      → recover json (l ∷ []) m ≡ some (apply_line json l m)
  unfolding recover
  recover-one l m h = ground arith

  -- Lines that fit are replayed one after the other.
  pub recover-append :
      (ls ks : List Line) (m m' : Dict WalEntry)
      → recover json ls m ≡ some m'
      → recover json (ls ++ ks) m ≡ recover json ks m'
  unfolding recover
  recover-append [] ks m m' e = ground arith
  recover-append (l ∷ ls) ks m m' e = ground (arith, recover-append ls ks (apply_line json l m) m')

  -- A line that leaves no room for its newline in the scanner's buffer makes recovery fail,
  -- whatever stands before and behind it.
  recover_oversize :
      (before after : List Line) (l : Line) (m : Dict WalEntry)
      → max_message_size ≤ size l
      → recover json (before ++ (l ∷ after)) m ≡ none
  unfolding recover
  recover_oversize [] after l m h = ground arith
  recover_oversize (k ∷ before) after l m h =
      ground (arith, recover_oversize before after l (apply_line json k m) h)
