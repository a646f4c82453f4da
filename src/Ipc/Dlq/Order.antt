-- ===== src/Ipc/Dlq/Order.antt =====
-- Which message is evicted, and which survive a purge.
use mathlib.Core.Path.{subst₂}
use k8s4claw.Base.{
  ◌<◌, ◌≡◌, inl, inr, refl, ap, String, false, Option, none, some, List, [], ◌∷◌, arith,
  Option-cases, Bool-cases, if◌then◌else◌, All, length, str_eq,
}
use k8s4claw.Ipc.Dlq.{DlqEntry, Bolt, older, oldest, evict_oldest, size}
use k8s4claw.Ipc.Dlq.Bounds.{oldest_nothing}

module _ (bolt : Bolt) where
  open bolt use {
    Bucket, Value, Stamp, get, put, delete, for_each, marshal, unmarshal, stamp, parse, earlier,
    reads_back, get-put, get-delete, length-put, length-delete, listed, earlier_asymm,
    earlier_trans,
  }

  -- The value is not that of an entry created before `t`.
  abbrev pub NotEarlier : Stamp → Value → Type 0
  NotEarlier t v = elim (unmarshal v) [ none ↦ Unit | some e ↦ earlier e.created_at t ≡ false ]

  -- The bucket has an entry of time `t` under the key.
  abbrev pub Holds : Bucket → String → Stamp → Type 0
  Holds b k t =
      (v : Value) × (e : DlqEntry Stamp) × (get b k ≡ some v)
      × (unmarshal v ≡ some e)
      × (e.created_at ≡ t)

  -- The best of the loop so far is no later than the final one and stands in the bucket.
  abbrev Best : Bucket → Option (String × Stamp) → Stamp → Type 0
  Best b none t = Unit
  Best b (some (j, u)) t = earlier u t ≡ false

  abbrev Stands : Bucket → Option (String × Stamp) → Type 0
  Stands b none = Unit
  Stands b (some (j, u)) = Holds b j u

  older-Stands :
      (b : Bucket) (acc : Option (String × Stamp)) (k : String) (v : Value) (e : DlqEntry Stamp)
      → get b k ≡ some v
      → unmarshal v ≡ some e
      → Stands b acc
      → Stands b (older bolt acc k e)
  unfolding older
  older-Stands b none k v e has json h = (v, e, has, json, refl)
  older-Stands b (some (j, u)) k v e has json h = elim (Bool-cases (earlier e.created_at u)) [
    | inl before ↦ rw before (v, e, has, json, refl)
    | inr after ↦ rw after h
  ]

  older-Best :
      (b : Bucket) (acc : Option (String × Stamp)) (k : String) (e : DlqEntry Stamp) (t : Stamp)
      → Best b (older bolt acc k e) t
      → Best b acc t × (earlier e.created_at t ≡ false)
  unfolding older
  older-Best b none k e t h = (tt, h)
  older-Best b (some (j, u)) k e t h = elim (Bool-cases (earlier e.created_at u)) [
    | inl before ↦
        let h' = rw (before, older) at h in
        (earlier_trans u e.created_at t (earlier_asymm e.created_at u before) h', h')
    | inr after ↦ let h' = rw (after, older) at h in (h', earlier_trans e.created_at u t after h')
  ]

  oldest-Best :
      (b : Bucket) (kvs : List (String × Value)) (acc : Option (String × Stamp)) (k : String)
      (t : Stamp)
      → All (λ p. get b p.0 ≡ some p.1) kvs
      → Stands b acc
      → oldest bolt kvs acc ≡ some (some (k, t))
      → Best b acc t × All (λ p. NotEarlier t p.1) kvs × Holds b k t
  unfolding oldest
  oldest-Best b [] none k t all stands q = cc
  oldest-Best b [] (some (j, u)) k t all stands q =
      let same : (j ≡ k) × (u ≡ t) = ground arith in
      (
        rw same.1 (ground (arith, earlier_asymm t t)),
        tt,
        subst₂ (λ k t. Holds b k t) same.0 same.1 stands,
      )
  oldest-Best b ((j, v) ∷ kvs) acc k t all stands q = elim (Option-cases (unmarshal v)) [
    | inl bad ↦ absurd (ground arith)
    | inr (e, good) ↦
        let rest =
          oldest-Best b kvs (older bolt acc j e) k t all.1
            (older-Stands b acc j v e all.0 good stands) (ground arith) in
        let (best, new) = older-Best b acc j e t rest.0 in
        (best, (rw (good, NotEarlier) new, rest.1), rest.2)
  ]

  -- `evictOldest` removes from a bucket that is not empty one message whose creation time, as a
  -- text, no other creation time precedes, and nothing else.
  evict_oldest_lem :
      (b c : Bucket)
      → 0 < size bolt b
      → evict_oldest bolt b ≡ some c
      → (k : String) × (t : Stamp) × Holds b k t
        × All (λ p. NotEarlier t p.1) (for_each b)
        × ((j : String) → get c j ≡ (if str_eq k j then none else get b j))
  unfolding evict_oldest size
  evict_oldest_lem b c pos q = elim (Option-cases (oldest bolt (for_each b) none)) [
    | inl bad ↦ absurd (ground arith)
    | inr (none, empty) ↦
        (let nothing : length (for_each b) ≡ 0 =
            ap length (oldest_nothing bolt (for_each b) none empty).1 in
          absurd (ground (arith, nothing)))
    | inr (some (k, t), good) ↦
        let (_, least, holds) = oldest-Best b (for_each b) none k t (listed b) tt good in
        (k, t, holds, least, λ j. ground (arith, get-delete b k j))
  ]
