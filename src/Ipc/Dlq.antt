-- ===== src/Ipc/Dlq.antt =====
-- The dead letter queue: internal/ipcbus/dlq.go.
-- The BoltDB bucket is a parameter: a store of byte strings under keys. A transaction that
-- returns an error leaves the store as it was.
pub mod Bounds
pub mod Order
pub mod Examples
mod Tests
use k8s4claw.Base.{
  ℕ, zero, suc, ◌+◌, ◌-◌, ◌≤◌, ◌≡◌, ◌≢◌, String, Bool, true, false, Option, none, some, List, [],
  ◌∷◌, if◌then◌else◌, is_some, All, leb, ltb, length, str_eq,
}
use k8s4claw.Ipc.Message.{Message}

-- Creation times are compared as texts, in the order of their bytes.
pub record DlqEntry (Stamp : Type 0) : Type 0 where
  pub id : String
  pub channel : String
  pub attempts : ℕ
  pub created_at : Stamp
  pub msg : Message

-- `bucketMessages` of a BoltDB file, `encoding/json` on an entry, and the times: `stamp` is
-- `Format(time.RFC3339Nano)`, `parse` reads it back to nanoseconds, and `earlier` is `<` of texts.
-- The laws are those of a store of pairs, and that JSON reads back what it writes.
pub record Bolt : Type 1 where
  pub Bucket : Type 0
  pub Value : Type 0
  pub Stamp : Type 0
  pub get : Bucket → String → Option Value
  -- `none` is the error of an empty key.
  pub put : Bucket → String → Value → Option Bucket
  pub delete : Bucket → String → Bucket
  -- What `ForEach` goes through; `Stats().KeyN` is its length.
  pub for_each : Bucket → List (String × Value)
  pub marshal : DlqEntry Stamp → Option Value
  pub unmarshal : Value → Option (DlqEntry Stamp)
  pub stamp : ℕ → Stamp
  pub parse : Stamp → Option ℕ
  pub earlier : Stamp → Stamp → Bool
  pub reads_back : (e : DlqEntry Stamp) (v : Value) → marshal e ≡ some v → unmarshal v ≡ some e
  pub get-put :
      (b c : Bucket) (k j : String) (v : Value)
      → put b k v ≡ some c
      → get c j ≡ (if str_eq k j then some v else get b j)
  pub get-delete :
      (b : Bucket) (k j : String) → get (delete b k) j ≡ (if str_eq k j then none else get b j)
  pub length-put :
      (b c : Bucket) (k : String) (v : Value)
      → put b k v ≡ some c
      → length (for_each c)
        ≡ (if is_some (get b k) then length (for_each b) else length (for_each b) + 1)
  pub length-delete :
      (b : Bucket) (k : String)
      → length (for_each (delete b k))
        ≡ (if is_some (get b k) then length (for_each b) - 1 else length (for_each b))
  pub listed : (b : Bucket) → All (λ p. get b p.0 ≡ some p.1) (for_each b)
  pub earlier_asymm : (s t : Stamp) → earlier s t ≡ true → earlier t s ≡ false
  pub earlier_trans :
      (s t u : Stamp) → earlier s t ≡ false → earlier t u ≡ false → earlier s u ≡ false

-- What `Get` returns: nil, an error, or the entry.
pub data Found (E : Type 0) : Type 0 where
  absent undecodable : Found E
  found : E → Found E

module _ (bolt : Bolt) where
  open bolt use {
    Bucket, Value, Stamp, get, put, delete, for_each, marshal, unmarshal, stamp, parse, earlier,
  }

  abbrev Entry : Type 0
  Entry = DlqEntry Stamp

  unfoldable pub size : Bucket → ℕ
  size b = length (for_each b)

  -- One round of the loop of `evictOldest`: the oldest entry so far, and the next.
  older : Option (String × Stamp) → String → Entry → Option (String × Stamp)
  older none k e = some (k, e.created_at)
  older (some (j, t)) k e = if earlier e.created_at t then some (k, e.created_at) else some (j, t)

  -- The loop; the outer `none` is an entry that does not decode.
  unfoldable pub oldest :
      List (String × Value) → Option (String × Stamp) → Option (Option (String × Stamp))
  unfolding older
  oldest [] acc = some acc
  oldest ((k, v) ∷ kvs) acc = elim (unmarshal v) [
    | none ↦ none
    | some e ↦ oldest kvs (older acc k e)
  ]

  unfoldable pub evict_oldest : Bucket → Option Bucket
  evict_oldest b = elim (oldest (for_each b) none) [
    | none ↦ none
    | some none ↦ some b
    | some (some (k, t)) ↦ some (delete b k)
  ]

  unfoldable pub new_entry : ℕ → Message → ℕ → Entry
  new_entry now msg attempts = record {
    id = msg.id;
    channel = msg.channel;
    attempts = attempts;
    created_at = stamp now;
    msg = msg;
  }

  -- The bucket with room for one more, if it is at capacity.
  make_room : ℕ → Bucket → Option Bucket
  make_room max_size b = if leb max_size (size b) then evict_oldest b else some b

  -- `commit` says whether the transaction commits.
  unfoldable pub put_message : ℕ → Bool → ℕ → Message → ℕ → Bucket → Bucket × Bool
  unfolding make_room size
  put_message max_size commit now msg attempts b = elim (marshal (new_entry now msg attempts)) [
    | none ↦ (b, false)
    | some v ↦ elim (make_room max_size b) [
      | none ↦ (b, false)
      | some roomy ↦ elim (put roomy msg.id v) [
        | none ↦ (b, false)
        | some full ↦ if commit then (full, true) else (b, false)
      ]
    ]
  ]

  unfoldable pub get_entry : Bucket → String → Found Entry
  get_entry b id = elim (get b id) [
    | none ↦ absent
    | some v ↦ elim (unmarshal v) [ none ↦ undecodable | some e ↦ found e ]
  ]

  unfoldable pub delete_entry : Bool → String → Bucket → Bucket × Bool
  delete_entry commit id b = if commit then (delete b id, true) else (b, false)

  -- The keys that `PurgeExpired` collects; `none` is an entry or a time that does not decode.
  unfoldable pub expired_keys : ℕ → ℕ → List (String × Value) → Option (List String)
  expired_keys ttl now [] = some []
  expired_keys ttl now ((k, v) ∷ kvs) = elim (unmarshal v) [
    | none ↦ none
    | some e ↦ elim (parse e.created_at) [
      | none ↦ none
      | some t ↦ elim (expired_keys ttl now kvs) [
        | none ↦ none
        | some ks ↦ some (if ltb (t + ttl) now then k ∷ ks else ks)
      ]
    ]
  ]

  unfoldable pub delete_all : List String → Bucket → Bucket
  delete_all [] b = b
  delete_all (k ∷ ks) b = delete_all ks (delete b k)

  -- `t.Before(now - ttl)` is `t + ttl < now`. The number is what was purged, also when the
  -- transaction does not commit.
  unfoldable pub purge_expired : ℕ → Bool → ℕ → Bucket → Bucket × ℕ × Bool
  purge_expired ttl commit now b = elim (expired_keys ttl now (for_each b)) [
    | none ↦ (b, 0, false)
    | some ks ↦ if commit then (delete_all ks b, length ks, true) else (b, length ks, false)
  ]
