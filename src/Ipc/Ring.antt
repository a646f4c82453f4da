-- ===== src/Ipc/Ring.antt =====
-- The ring buffer with watermarks: internal/ipcbus/ringbuffer.go. Each method runs under the
-- buffer's lock, so it is one step; one that changes the buffer returns the new one.
pub mod Bounds
pub mod Refine
pub mod Runs
pub mod Watermark
pub mod Examples
mod Tests
use k8s4claw.Base.{
  ℕ, zero, suc, ◌+◌, ◌-◌, ◌%◌, Bool, true, false, not, ◌&&◌, ◌||◌, Option, none, some, List,
  if◌then◌else◌, ◌==◌, get_or, set, replicate, ℤ, pos, negsuc,
}
use k8s4claw.Ipc.Float.{Float}

pub data BackpressureState : Type 0 where
  normal slow : BackpressureState

abbrev pub is_normal : BackpressureState → Bool
is_normal normal = true
is_normal slow = false

-- The two marks stay apart from the buffer proper, since they never change.
pub record RingBuffer (F A : Type 0) : Type 0 where
  pub buf : List (Option A)
  pub size : ℕ
  pub head : ℕ
  pub tail : ℕ
  pub count : ℕ
  pub high_mark : F
  pub low_mark : F
  pub state : BackpressureState

-- A size that is not positive is replaced.
unfoldable pub size_of : ℤ → ℕ
size_of (pos zero) = 1024
size_of (pos (suc n)) = suc n
size_of (negsuc n) = 1024

module _ (fl : Float) where
  open fl use {F, le, ratio, f_zero, f_one, default_high, default_low}

  -- `a < b` of floats that are not NaN.
  abbrev pub lt : F → F → Bool
  lt a b = not (le b a)

  unfoldable pub high_of : F → F
  high_of h = if le h f_zero || lt f_one h then default_high else h

  -- `h` is the high mark already replaced.
  unfoldable pub low_of : F → F → F
  low_of l h = if le l f_zero || le h l then default_low else l

  module _ {A : Type 0} where
    unfoldable pub new_ring_buffer : ℤ → F → F → RingBuffer F A
    new_ring_buffer n h l = record {
      buf = replicate (size_of n) none;
      size = size_of n;
      head = 0;
      tail = 0;
      count = 0;
      high_mark = high_of h;
      low_mark = low_of l (high_of h);
      state = normal;
    }

    -- The end of `Push`, after the write: whether the state goes over to slow.
    after_push : RingBuffer F A → RingBuffer F A × Bool × Bool
    after_push rb =
        if is_normal rb.state && le rb.high_mark (ratio rb.count rb.size)
        then (record rb { state = slow }, true, true)
        else (rb, true, false)

    -- The results are `ok` and `stateChanged`.
    unfoldable pub push : RingBuffer F A → A → RingBuffer F A × Bool × Bool
    unfolding after_push
    push rb msg =
        if rb.count == rb.size
        then (rb, false, false)
        else after_push (record rb {
          buf = set rb.buf rb.tail (some msg);
          tail = (rb.tail + 1) % rb.size;
          count = rb.count + 1;
        })

    after_pop : RingBuffer F A → Option A → RingBuffer F A × Option A × Bool
    after_pop rb msg =
        if not (is_normal rb.state) && le (ratio rb.count rb.size) rb.low_mark
        then (record rb { state = normal }, msg, true)
        else (rb, msg, false)

    -- The results are the message, `none` for nil, and `stateChanged`.
    unfoldable pub pop : RingBuffer F A → RingBuffer F A × Option A × Bool
    unfolding after_pop
    pop rb =
        if rb.count == 0
        then (rb, none, false)
        else after_pop
            (record rb {
              buf = set rb.buf rb.head none;
              head = (rb.head + 1) % rb.size;
              count = rb.count - 1;
            })
            (get_or rb.buf rb.head none)

    unfoldable pub fill_ratio : RingBuffer F A → F
    fill_ratio rb = ratio rb.count rb.size
