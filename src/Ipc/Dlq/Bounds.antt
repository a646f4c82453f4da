-- ===== src/Ipc/Dlq/Bounds.antt =====
-- How many messages the dead letter queue keeps, and which.
use k8s4claw.Base.{
  ℕ, ◌-◌, ◌≤◌, ◌<◌, ◌≡◌, ◌≢◌, inl, inr, refl, ap, String, Bool, true, false, Option, none, some,
  List, [], ◌∷◌, arith, Option-cases, Bool-cases, is_some, All, length, eq_refl,
}
use k8s4claw.Ipc.Message.{Message}
use k8s4claw.Ipc.Dlq.{
  DlqEntry, Bolt, found, older, oldest, evict_oldest, make_room, size, new_entry, put_message,
  get_entry,
}

module _ (bolt : Bolt) where
  open bolt use {
    Bucket, Value, Stamp, get, put, delete, for_each, marshal, unmarshal, stamp, parse, earlier,
    reads_back, get-put, get-delete, length-put, length-delete, listed, earlier_asymm,
    earlier_trans,
  }

  older_member :
      (b : Bucket) (acc : Option (String × Stamp)) (j : String) (v : Value) (e : DlqEntry Stamp)
      → get b j ≡ some v
      → ((i : String) (u : Stamp) → acc ≡ some (i, u) → is_some (get b i) ≡ true)
      → (i : String) (u : Stamp) → older bolt acc j e ≡ some (i, u)
      → is_some (get b i) ≡ true
  unfolding older
  older_member b none j v e has start i u q = ground arith
  older_member b (some (i', u')) j v e has start i u q = ground (arith, start i' u' refl)

  -- The loop answers with a key that it was given or has read.
  oldest_member :
      (b : Bucket) (kvs : List (String × Value)) (acc : Option (String × Stamp)) (k : String)
      (t : Stamp)
      → All (λ p. get b p.0 ≡ some p.1) kvs
      → ((j : String) (u : Stamp) → acc ≡ some (j, u) → is_some (get b j) ≡ true)
      → oldest bolt kvs acc ≡ some (some (k, t))
      → is_some (get b k) ≡ true
  unfolding oldest
  oldest_member b [] acc k t all start q = start k t (ground arith)
  oldest_member b ((j, v) ∷ kvs) acc k t all start q = elim (Option-cases (unmarshal v)) [
    | inl bad ↦ absurd (ground arith)
    | inr (e, good) ↦
        oldest_member b kvs (older bolt acc j e) k t all.1 (older_member b acc j v e all.0 start)
          (ground arith)
  ]

  older-ne-none :
      (acc : Option (String × Stamp)) (k : String) (e : DlqEntry Stamp) → older bolt acc k e ≢ none
  unfolding older
  older-ne-none none k e = λ q. cc
  older-ne-none (some (j, t)) k e = ground arith

  -- The loop finds nothing only in an empty bucket.
  pub oldest_nothing :
      (kvs : List (String × Value)) (acc : Option (String × Stamp))
      → oldest bolt kvs acc ≡ some none
      → (acc ≡ none) × (kvs ≡ [])
  unfolding oldest
  oldest_nothing [] acc q = ground arith
  oldest_nothing ((j, v) ∷ kvs) acc q = elim (Option-cases (unmarshal v)) [
    | inl bad ↦ absurd (ground arith)
    | inr (e, good) ↦
        absurd (older-ne-none acc j e (oldest_nothing kvs (older bolt acc j e) (ground arith)).0)
  ]

  evict_oldest_size : (b c : Bucket) → evict_oldest bolt b ≡ some c → size bolt c ≤ size bolt b - 1
  unfolding evict_oldest size
  evict_oldest_size b c q = elim (Option-cases (oldest bolt (for_each b) none)) [
    | inl bad ↦ absurd (ground arith)
    | inr (none, empty) ↦
        (let nothing : length (for_each b) ≡ 0 =
            ap length (oldest_nothing (for_each b) none empty).1 in
          ground (arith, nothing))
    | inr (some (k, t), good) ↦ ground (
      arith,
      length-delete b k,
      oldest_member b (for_each b) none k t (listed b) (λ i u e. cc) good,
    )
  ]

  make_room_size :
      (max_size : ℕ) (b roomy : Bucket)
      → 0 < max_size
      → size bolt b ≤ max_size
      → make_room bolt max_size b ≡ some roomy
      → size bolt roomy < max_size
  unfolding make_room
  make_room_size max_size b roomy pos h q = ground (arith, evict_oldest_size b roomy)

  -- What a successful `Put` has done.
  put_message-inv :
      (max_size : ℕ) (commit : Bool) (now : ℕ) (msg : Message) (attempts : ℕ) (b : Bucket)
      → (put_message bolt max_size commit now msg attempts b).1 ≡ true
      → (v : Value) × (roomy : Bucket) × (marshal (new_entry bolt now msg attempts) ≡ some v)
        × (make_room bolt max_size b ≡ some roomy)
        × (put roomy msg.id v ≡ some (put_message bolt max_size commit now msg attempts b).0)
  unfolding put_message
  put_message-inv max_size commit now msg attempts b done =
      elim (Option-cases (marshal (new_entry bolt now msg attempts))) [
        | inl bad ↦ absurd (ground arith)
        | inr (v, json) ↦ elim (Option-cases (make_room bolt max_size b)) [
          | inl bad ↦ absurd (ground arith)
          | inr (roomy, room) ↦ (v, roomy, json, room, ground arith)
        ]
      ]

  put_message_failed :
      (max_size : ℕ) (commit : Bool) (now : ℕ) (msg : Message) (attempts : ℕ) (b : Bucket)
      → (put_message bolt max_size commit now msg attempts b).1 ≡ false
      → (put_message bolt max_size commit now msg attempts b).0 ≡ b
  unfolding put_message
  put_message_failed max_size commit now msg attempts b failed = ground arith

  put_size :
      (max_size : ℕ) (b c : Bucket) (k : String) (v : Value)
      → size bolt b < max_size
      → put b k v ≡ some c
      → size bolt c ≤ max_size
  unfolding size
  put_size max_size b c k v h q = ground (arith, length-put b c k v q)

  -- `Put` never brings the number of messages above the capacity, if that is at least 1.
  pub put_message_bounded :
      (max_size : ℕ) (commit : Bool) (now : ℕ) (msg : Message) (attempts : ℕ) (b : Bucket)
      → 0 < max_size
      → size bolt b ≤ max_size
      → size bolt (put_message bolt max_size commit now msg attempts b).0 ≤ max_size
  put_message_bounded max_size commit now msg attempts b pos h =
      elim (Bool-cases (put_message bolt max_size commit now msg attempts b).1) [
        | inl done ↦
            let (v, roomy, json, room, stored) =
              put_message-inv max_size commit now msg attempts b done in
            put_size max_size roomy (put_message bolt max_size commit now msg attempts b).0 msg.id v
              (make_room_size max_size b roomy pos h room) stored
        | inr failed ↦ rw (put_message_failed max_size commit now msg attempts b failed) h
      ]

  -- After a successful `Put`, `Get` finds the message with its attempts and time.
  get_entry-put_message :
      (max_size : ℕ) (commit : Bool) (now : ℕ) (msg : Message) (attempts : ℕ) (b : Bucket)
      → (put_message bolt max_size commit now msg attempts b).1 ≡ true
      → get_entry bolt (put_message bolt max_size commit now msg attempts b).0 msg.id
        ≡ found (new_entry bolt now msg attempts)
  unfolding get_entry
  get_entry-put_message max_size commit now msg attempts b done =
      let (v, roomy, json, room, stored) =
        put_message-inv max_size commit now msg attempts b done in
      let got =
        get-put roomy (put_message bolt max_size commit now msg attempts b).0 msg.id msg.id v
          stored in
      ground (arith, got, eq_refl msg.id, reads_back (new_entry bolt now msg attempts) v json)
