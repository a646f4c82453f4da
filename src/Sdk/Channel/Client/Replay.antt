-- ===== src/Sdk/Channel/Client/Replay.antt =====
-- Messages that wait for the bus: sdk/channel/client.go.
use k8s4claw.Base.{
  ℕ, zero, suc, ◌+◌, ◌<◌, ◌≡◌, refl, ap, ◌∙◌, Bool, true, false, not, ◌||◌, inl, inr, List, [], ◌∷◌,
  ◌++◌, arith, length, leb, is_some, Bool-cases, ◌⊎◌,
}
use k8s4claw.Ipc.Message.{Message}
use k8s4claw.Sdk.Channel.Buffer.{Buffer, push, drain_all}
use k8s4claw.Sdk.Channel.Client.{
  Client, replay_from, replay_buffer, transmit, mark_disconnected, try_reconnect,
}

-- The first writes are taken.
abbrev pub Accepted : (ℕ → Bool) → ℕ → ℕ → Type 0
Accepted accepts i zero = Unit
Accepted accepts i (suc n) = (accepts i ≡ true) × Accepted accepts (suc i) n

replay_from_cut :
    (accepts : ℕ → Bool) (i j : ℕ) (sent rest : List Message) (msg : Message) (buf : Buffer Message)
    → Accepted accepts i (length sent)
    → j ≡ i + length sent
    → accepts j ≡ false
    → replay_from accepts i (sent ++ (msg ∷ rest)) buf ≡ ((push msg buf).0, sent)
unfolding replay_from
replay_from_cut accepts i j [] rest msg buf ok at refused =
    let now : accepts i ≡ false = ap accepts (omega (arith, at)) ∙ refused in rw now refl
replay_from_cut accepts i j (s ∷ sent) rest msg buf (ok, oks) at refused =
    rw (ok, replay_from_cut accepts (suc i) j sent rest msg buf oks (omega (arith, at)) refused)
      refl

replay_from_all :
    (accepts : ℕ → Bool) (i : ℕ) (msgs : List Message) (buf : Buffer Message)
    → Accepted accepts i (length msgs)
    → replay_from accepts i msgs buf ≡ (buf, msgs)
unfolding replay_from
replay_from_all accepts i [] buf ok = refl
replay_from_all accepts i (msg ∷ msgs) buf (ok, oks) =
    rw (ok, replay_from_all accepts (suc i) msgs buf oks) refl

push_first :
    (msg : Message) (n : ℕ)
    → 0 < n
    → (push msg (record { items = []; capacity = n })).0.items ≡ msg ∷ []
unfolding push
push_first msg n room = elim (Bool-cases (leb n 0)) [
  | inl full ↦ absurd (ground (arith, full, room))
  | inr free ↦ rw free refl
]

-- A replay whose writes are all taken sends the buffered messages in order and leaves none. If a
-- write is refused, the messages before it were sent, the one that it was for is buffered again, and
-- those behind it are neither sent nor buffered: they are lost.
pub replay_buffer_loses :
    (accepts refuses : ℕ → Bool) (c : Client) (sent rest : List Message) (msg : Message)
    → c.buf.items ≡ sent ++ (msg ∷ rest)
    → 0 < c.buf.capacity
    → Accepted accepts 0 (length c.buf.items)
    → Accepted refuses 0 (length sent)
    → refuses (length sent) ≡ false
    → ((replay_buffer accepts c).written ≡ c.buf.items)
      × ((replay_buffer accepts c).client.buf.items ≡ [])
      × ((replay_buffer refuses c).written ≡ sent)
      × ((replay_buffer refuses c).client.buf.items ≡ msg ∷ [])
unfolding replay_buffer drain_all
replay_buffer_loses accepts refuses c sent rest msg items room all some_first refused =
    let empty : Buffer Message = record c.buf { items = [] } in
    let whole = replay_from_all accepts 0 c.buf.items empty all in
    let cut =
      ap (λ l. replay_from refuses 0 l empty) items
      ∙ replay_from_cut refuses 0 (length sent) sent rest msg empty some_first (omega arith)
          refused in
    (
      ap (λ r. r.1) whole,
      ap (λ r. r.0.items) whole,
      ap (λ r. r.1) cut,
      ap (λ r. r.0.items) cut ∙ push_first msg c.buf.capacity room,
    )

-- An error, or the message is written, or it is buffered, or it is lost in silence.
abbrev pub IsKept : Bool → Message → Client → Type 0
IsKept accepted msg c =
    let out = transmit accepted msg c in
    (out.is_error ≡ true)
    ⊎ (out.written ≡ msg ∷ [])
    ⊎ (out.client.buf.items ≡ c.buf.items ++ (msg ∷ []))
    ⊎ ((accepted ≡ false)
        × (c.connected ≡ true)
        × (leb c.buf.capacity (length c.buf.items) ≡ true)
        × (out.written ≡ [])
        × (out.client.buf.items ≡ c.buf.items)
        × (out.is_error ≡ false))

reconnect_keeps_buf : (c : Client) → (try_reconnect c).0.buf ≡ c.buf
unfolding try_reconnect
reconnect_keeps_buf c = elim (Bool-cases c.reconnecting) [
  | inl busy ↦ rw busy refl
  | inr idle ↦ rw idle refl
]

push_full :
    (msg : Message) (b : Buffer Message)
    → leb b.capacity (length b.items) ≡ true
    → push msg b ≡ (b, false)
unfolding push
push_full msg b full = rw full refl

push_room :
    (msg : Message) (b : Buffer Message)
    → leb b.capacity (length b.items) ≡ false
    → push msg b ≡ (record b { items = b.items ++ (msg ∷ []) }, true)
unfolding push
push_room msg b room = rw room refl

-- Without a connection: the buffer takes the message or an error is returned.
transmit_down :
    (accepted : Bool) (msg : Message) (c : Client)
    → (not c.connected || not (is_some c.conn)) ≡ true
    → IsKept accepted msg c
unfolding transmit
transmit_down accepted msg c down = elim (Bool-cases (leb c.buf.capacity (length c.buf.items))) [
  | inl full ↦ inl (rw (down, transmit, push_full msg c.buf full) refl)
  | inr room ↦ inr (inr (inl (rw (down, transmit, push_room msg c.buf room) refl)))
]

-- The write fails: the message goes into the buffer, whether it fits or not.
transmit_refused :
    (msg : Message) (c : Client)
    → (not c.connected || not (is_some c.conn)) ≡ false
    → (transmit false msg c).client.buf.items ≡ (push msg c.buf).0.items
unfolding transmit mark_disconnected
transmit_refused msg c up =
    rw (up, transmit)
      (ap (λ b. b.items)
        (reconnect_keeps_buf (record (mark_disconnected c) { buf = (push msg c.buf).0 })))

transmit_failed :
    (msg : Message) (c : Client)
    → (not c.connected || not (is_some c.conn)) ≡ false
    → IsKept false msg c
unfolding transmit
transmit_failed msg c up = elim (Bool-cases (leb c.buf.capacity (length c.buf.items))) [
  | inr room ↦
      inr (inr (inl (transmit_refused msg c up ∙ ap (λ r. r.0.items) (push_room msg c.buf room))))
  | inl full ↦ inr (
      inr (
        inr (
          refl,
          ground (arith, up),
          full,
          rw (up, transmit) refl,
          transmit_refused msg c up ∙ ap (λ r. r.0.items) (push_full msg c.buf full),
          rw (up, transmit) refl,
        )))
]

transmit_up :
    (accepted : Bool) (msg : Message) (c : Client)
    → (not c.connected || not (is_some c.conn)) ≡ false
    → IsKept accepted msg c
unfolding transmit
transmit_up true msg c up = inr (inl (rw (up, transmit) refl))
transmit_up false msg c up = transmit_failed msg c up

-- After what `Send` waits for, an error is returned, or the message is written, or it goes to the end
-- of the buffer; or the write of a connected client fails while its buffer is full, and then the
-- message is lost: nothing is written, the buffer is as before, and no error is returned.
pub transmit-IsKept : (accepted : Bool) (msg : Message) (c : Client) → IsKept accepted msg c
unfolding transmit
transmit-IsKept accepted msg c = elim (Bool-cases (not c.connected || not (is_some c.conn))) [
  | inl down ↦ transmit_down accepted msg c down
  | inr up ↦ transmit_up accepted msg c up
]
