-- ===== src/Ipc/Dlq/Examples.antt =====
-- A store for the queue: an association list without repeated keys, whose values are the entries
-- themselves and whose times are numbers.
use k8s4claw.Base.{
  ℕ, ◌+◌, ◌-◌, ◌≡◌, ◌<◌, refl, ◌∙◌, String, true, false, Option, none, some, [], ◌∷◌, arith, Dict,
  lookup, insert, delete, lookup-insert, lookup-delete, IsUnique, All, length, ltb, str_eq, eq_iff,
  is_some, if◌then◌else◌, Bool-cases, inl, inr,
}
use k8s4claw.Ipc.Dlq.{DlqEntry, Bolt}

abbrev pub Entry : Type 0
Entry = DlqEntry ℕ

pub insert-IsUnique :
    (k : String) (v : Entry) (m : Dict Entry) → IsUnique m → IsUnique (insert k v m)
unfolding insert lookup
insert-IsUnique k v [] u = (refl, tt)
insert-IsUnique k v ((j, w) ∷ m) u = elim (Bool-cases (str_eq j k)) [
  | inl same ↦ rw (same, insert) (ground (arith, eq_iff j k), u.1)
  | inr diff ↦
      rw (diff, insert)
        (lookup-insert k j v m ∙ ground (arith, eq_iff j k, eq_iff k j), insert-IsUnique k v m u.1)
]

pub delete-IsUnique : (k : String) (m : Dict Entry) → IsUnique m → IsUnique (delete k m)
unfolding delete
delete-IsUnique k [] u = tt
delete-IsUnique k ((j, w) ∷ m) u = elim (Bool-cases (str_eq j k)) [
  | inl same ↦ rw (same, delete) (delete-IsUnique k m u.1)
  | inr diff ↦
      rw (diff, delete)
        (lookup-delete k j m ∙ ground (arith, eq_iff j k, eq_iff k j), delete-IsUnique k m u.1)
]

pub length-insert :
    (k : String) (v : Entry) (m : Dict Entry)
    → length (insert k v m) ≡ (if is_some (lookup k m) then length m else length m + 1)
unfolding insert lookup
length-insert k v [] = refl
length-insert k v ((j, w) ∷ m) = ground (arith, length-insert k v m)

pub delete_absent :
    (k : String) (m : Dict Entry) → lookup k m ≡ none → length (delete k m) ≡ length m
unfolding delete lookup
delete_absent k [] h = refl
delete_absent k ((j, w) ∷ m) h = ground (arith, delete_absent k m)

pub length-delete :
    (k : String) (m : Dict Entry)
    → IsUnique m
    → length (delete k m) ≡ (if is_some (lookup k m) then length m - 1 else length m)
unfolding delete lookup
length-delete k [] u = refl
length-delete k ((j, w) ∷ m) u = ground (
  arith,
  eq_iff j k,
  length-delete k m u.1,
  delete_absent j m u.0,
  delete_absent k m,
  has_any k m,
)
  where
    has_any : (i : String) (n : Dict Entry) → is_some (lookup i n) ≡ true → 0 < length n
    has_any i [] h = cc
    has_any i (x ∷ n) h = omega arith

-- More bindings in front, under other keys, change no answer.
pub listed_behind :
    (k : String) (v : Entry) (m n : Dict Entry)
    → lookup k m ≡ none
    → All (λ p. lookup p.0 n ≡ some p.1) m
    → lookup k n ≡ none
    → All (λ p. lookup p.0 ((k, v) ∷ n) ≡ some p.1) m
unfolding lookup
listed_behind k v [] n h all a = tt
listed_behind k v ((j, w) ∷ m) n h all a =
    (ground (arith, eq_iff k j, eq_iff j k, all.0), listed_behind k v m n (ground arith) all.1 a)

pub listed_unique : (m : Dict Entry) → IsUnique m → All (λ p. lookup p.0 m ≡ some p.1) m
unfolding lookup
listed_unique [] u = tt
listed_unique ((k, v) ∷ m) u =
    (ground (arith, eq_iff k k), listed_behind k v m m u.0 (listed_unique m u.1) u.0)

abbrev pub Store : Type 0
Store = (m : Dict Entry) × IsUnique m

abbrev pub insert_into : Store → String → Entry → Option Store
insert_into b k v = some (insert k v b.0, insert-IsUnique k v b.0 b.1)

pub insert_lookup :
    (b c : Store) (k j : String) (v : Entry)
    → insert_into b k v ≡ some c
    → lookup j c.0 ≡ (if str_eq k j then some v else lookup j b.0)
insert_lookup b c k j v h = ground (arith, lookup-insert k j v b.0)

pub insert_length :
    (b c : Store) (k : String) (v : Entry)
    → insert_into b k v ≡ some c
    → length c.0 ≡ (if is_some (lookup k b.0) then length b.0 else length b.0 + 1)
insert_length b c k v h = ground (arith, length-insert k v b.0)

pub some_back : (e l : Entry) → some e ≡ some l → some l ≡ some e
some_back e l h = cc

pub later_asymm : (s t : ℕ) → ltb s t ≡ true → ltb t s ≡ false
later_asymm s t h = ground arith

pub later_trans : (s t u : ℕ) → ltb s t ≡ false → ltb t u ≡ false → ltb s u ≡ false
later_trans s t u p q = ground arith

abbrev pub store : Bolt
store = record {
  Bucket = Store;
  Value = Entry;
  Stamp = ℕ;
  get = λ b k. lookup k b.0;
  put = insert_into;
  delete = λ b k. (delete k b.0, delete-IsUnique k b.0 b.1);
  for_each = λ b. b.0;
  marshal = λ e. some e;
  unmarshal = λ e. some e;
  stamp = λ n. n;
  parse = λ n. some n;
  earlier = ltb;
  reads_back = some_back;
  get-put = insert_lookup;
  get-delete = λ b k j. lookup-delete k j b.0;
  length-put = insert_length;
  length-delete = λ b k. length-delete k b.0 b.1;
  listed = λ b. listed_unique b.0 b.1;
  earlier_asymm = later_asymm;
  earlier_trans = later_trans;
}
