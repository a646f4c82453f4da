-- ===== src/Ipc/Ring/Bounds.antt =====
-- The representation invariant of the ring buffer: indices in range, and the tail `count` slots
-- after the head.
use native.Mathlib.Nat.{mod-add-mod}
use k8s4claw.Base.{
  ℕ, ◌+◌, ◌%◌, ◌≤◌, ◌<◌, ◌≡◌, ap, ◌≢◌, ◌-◌, arith, ℤ, pos, negsuc, zero, suc, length, length-set,
  length-replicate, none, some,
}
use k8s4claw.Ipc.Float.{Float}
use k8s4claw.Ipc.Ring.{RingBuffer, size_of, new_ring_buffer, push, pop}

pub record IsValid {F A : Type 0} (rb : RingBuffer F A) : Type 0 where
  pub storage : length rb.buf ≡ rb.size
  pub positive : 0 < rb.size
  pub head_in : rb.head < rb.size
  pub count_in : rb.count ≤ rb.size
  pub tail_at : rb.tail ≡ (rb.head + rb.count) % rb.size

size_of_pos : (n : ℤ) → 0 < size_of n
unfolding size_of
size_of_pos (pos zero) = omega arith
size_of_pos (pos (suc n)) = omega arith
size_of_pos (negsuc n) = omega arith

tail_next : (h c n : ℕ) → ((h + c) % n + 1) % n ≡ (h + (c + 1)) % n
tail_next h c n = rw mod-add-mod (ap (λ t. t % n) (omega arith))

tail_kept : (h c n : ℕ) → c ≢ 0 → (h + c) % n ≡ ((h + 1) % n + (c - 1)) % n
tail_kept h c n e = rw mod-add-mod (ap (λ t. t % n) (omega arith))

module _ (fl : Float) where
  open fl use {F}

  module _ {A : Type 0} where
    -- A new buffer is valid, whatever size is asked for, and empty.
    pub new_ring_buffer-IsValid : (n : ℤ) (h l : F) → IsValid {A = A} (new_ring_buffer fl n h l)
    unfolding new_ring_buffer
    new_ring_buffer-IsValid n h l = record {
      storage = length-replicate (size_of n) none;
      positive = size_of_pos n;
      head_in = size_of_pos n;
      count_in = omega arith;
      tail_at = omega arith;
    }

    -- `Push` keeps the invariant, full or not.
    pub push-IsValid : (rb : RingBuffer F A) (x : A) → IsValid rb → IsValid (push fl rb x).0
    unfolding push
    push-IsValid rb x v =
        ground (arith, length-set rb.buf rb.tail (some x), tail_next rb.head rb.count rb.size)

    -- `Pop` keeps the invariant, empty or not.
    pub pop-IsValid : (rb : RingBuffer F A) → IsValid rb → IsValid (pop fl rb).0
    unfolding pop
    pop-IsValid rb v =
        ground (arith, length-set rb.buf rb.head none, tail_kept rb.head rb.count rb.size)
