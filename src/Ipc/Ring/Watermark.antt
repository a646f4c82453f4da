-- ===== src/Ipc/Ring/Watermark.antt =====
-- The watermarks: when producers are slowed down and when they resume.
use k8s4claw.Base.{◌+◌, ◌-◌, ◌≡◌, ◌⊎◌, refl, true, false, not, ◌&&◌, arith, ℤ}
use k8s4claw.Ipc.Float.{Float}
use k8s4claw.Ipc.Ring.{is_normal, RingBuffer, size_of, high_of, low_of, new_ring_buffer, push, pop}
use k8s4claw.Ipc.Ring.Bounds.{IsValid, new_ring_buffer-IsValid}

module _ (fl : Float) where
  open fl use {
    F, le, ratio, f_zero, f_one, default_high, default_low, le_total, le_trans, ratio_mono,
    ratio_zero, zero-lt-low, low-lt-high,
  }

  module _ {A : Type 0} where
    -- The state says where the fill ratio stands: below the high mark, or above the low one.
    pub record IsMarked (rb : RingBuffer F A) : Type 0 where
      pub apart : le rb.high_mark rb.low_mark ≡ false
      pub calm : (is_normal rb.state && le rb.high_mark (ratio rb.count rb.size)) ≡ false
      pub busy : (not (is_normal rb.state) && le (ratio rb.count rb.size) rb.low_mark) ≡ false

    -- Every push keeps the watermark invariant.
    push-IsMarked :
        (rb : RingBuffer F A) (x : A) → IsValid rb → IsMarked rb → IsMarked (push fl rb x).0
    unfolding push
    push-IsMarked rb x v m = ground (
      arith,
      ratio_mono rb.count (rb.count + 1) rb.size (omega arith) v.positive,
      le_trans (ratio rb.count rb.size) (ratio (rb.count + 1) rb.size) rb.low_mark,
      le_trans rb.high_mark (ratio (rb.count + 1) rb.size) rb.low_mark,
    )

    -- Every pop keeps the watermark invariant.
    pop-IsMarked : (rb : RingBuffer F A) → IsValid rb → IsMarked rb → IsMarked (pop fl rb).0
    unfolding pop
    pop-IsMarked rb v m = ground (
      arith,
      ratio_mono (rb.count - 1) rb.count rb.size (omega arith) v.positive,
      le_trans rb.high_mark (ratio (rb.count - 1) rb.size) (ratio rb.count rb.size),
      le_trans rb.high_mark (ratio (rb.count - 1) rb.size) rb.low_mark,
    )

  high-pos : le default_high f_zero ≡ false
  high-pos = ground (
    arith,
    zero-lt-low,
    low-lt-high,
    le_total default_low f_zero,
    le_trans default_high f_zero default_low,
  )

  high_of_pos : (h : F) → le (high_of fl h) f_zero ≡ false
  unfolding high_of
  high_of_pos h = ground (arith, high-pos)

  low-lt-high_of : (h l : F) → le h default_low ≡ false → le h (low_of fl l h) ≡ false
  unfolding low_of
  low-lt-high_of h l a = ground arith

  -- A new buffer satisfies the watermark invariant, for every size and every pair of marks, as
  -- long as the high mark, once an invalid one is replaced, lies above the default low mark.
  new_ring_buffer-IsMarked :
      {A : Type 0} (n : ℤ) (h l : F)
      → le (high_of fl h) default_low ≡ false
      → IsMarked {A = A} (new_ring_buffer fl n h l)
  unfolding new_ring_buffer
  new_ring_buffer-IsMarked {A} n h l a = record {
    apart = low-lt-high_of (high_of fl h) l a;
    calm =
        rw (ratio_zero (size_of n) (new_ring_buffer-IsValid fl {A = A} n h l).positive)
          (high_of_pos h);
    busy = refl;
  }

  -- Where a valid high mark is at most the default low mark and the low mark is invalid, the
  -- default replaces the low mark and the two marks are in the wrong order.
  new_ring_buffer_inverted :
      (A : Type 0) (n : ℤ) (h l : F)
      → le h f_zero ≡ false
      → le h f_one ≡ true
      → le h default_low ≡ true
      → (le l f_zero ≡ true) ⊎ (le h l ≡ true)
      → let rb : RingBuffer F A = new_ring_buffer fl n h l in le rb.high_mark rb.low_mark ≡ true
  unfolding new_ring_buffer high_of low_of
  new_ring_buffer_inverted A n h l pos one low bad = ground arith
