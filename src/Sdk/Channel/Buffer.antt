-- ===== src/Sdk/Channel/Buffer.antt =====
-- The queue for the time when the bus is down: sdk/channel/buffer.go. Each method runs under the
-- buffer's lock.
pub mod Fifo
use k8s4claw.Base.{
  ℕ, zero, suc, Bool, true, false, Option, none, some, List, [], ◌∷◌, ◌++◌, ℤ, pos, negsuc, length,
  leb, if◌then◌else◌,
}

pub record Buffer {ℓ} (Msg : Type ℓ) : Type ℓ where
  pub items : List Msg
  pub capacity : ℕ

-- A capacity that is not positive becomes 256.
unfoldable pub capacity_of : ℤ → ℕ
capacity_of (pos zero) = 256
capacity_of (pos (suc n)) = suc n
capacity_of (negsuc n) = 256

module _ {ℓ} {Msg : Type ℓ} where
  unfoldable pub new_buffer : ℤ → Buffer Msg
  new_buffer capacity = record { items = []; capacity = capacity_of capacity }

  -- The buffer, and whether it took the message.
  unfoldable pub push : Msg → Buffer Msg → Buffer Msg × Bool
  push msg b =
      if leb b.capacity (length b.items)
      then (b, false)
      else (record b { items = b.items ++ (msg ∷ []) }, true)

  unfoldable pub pop : Buffer Msg → Buffer Msg × Option Msg
  pop b = elim b.items [ [] ↦ (b, none) | msg ∷ rest ↦ (record b { items = rest }, some msg) ]

  unfoldable pub len : Buffer Msg → ℕ
  len b = length b.items

  unfoldable pub drain_all : Buffer Msg → Buffer Msg × List Msg
  drain_all b = (record b { items = [] }, b.items)
