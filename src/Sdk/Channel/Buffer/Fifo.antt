-- ===== src/Sdk/Channel/Buffer/Fifo.antt =====
-- The buffer against a queue: sdk/channel/buffer.go.
use mathlib.Core.Path.{subst}
use k8s4claw.Base.{
  ℕ, ◌≤◌, ◌≡◌, refl, sym, ap, ◌∙◌, inl, inr, Option, none, some, List, [], ◌∷◌, ◌++◌, append_assoc,
  append-nil, arith, length, length-append, leb, Bool-cases, if◌then◌else◌,
}
use k8s4claw.Sdk.Channel.Buffer.{Buffer, push, pop, drain_all}

-- The calls of the buffer.
pub data Op {ℓ} (Msg : Type ℓ) : Type ℓ where
  pushes : Msg → Op Msg
  pops : Op Msg
  drains : Op Msg

-- The buffer after calls, what it took in and what it handed out, in order.
pub record Trace {ℓ} (Msg : Type ℓ) : Type ℓ where
  pub buffer : Buffer Msg
  pub taken : List Msg
  pub handed : List Msg

module _ {ℓ} {Msg : Type ℓ} where
  abbrev of_option : Option Msg → List Msg
  of_option none = []
  of_option (some msg) = msg ∷ []

  abbrev pub step : Op Msg → Buffer Msg → Trace Msg
  step (pushes msg) b = record {
    buffer = (push msg b).0;
    taken = if (push msg b).1 then msg ∷ [] else [];
    handed = [];
  }
  step pops b = record { buffer = (pop b).0; taken = []; handed = of_option (pop b).1 }
  step drains b = record { buffer = (drain_all b).0; taken = []; handed = (drain_all b).1 }

  abbrev pub run : List (Op Msg) → Buffer Msg → Trace Msg
  run [] b = record { buffer = b; taken = []; handed = [] }
  run (op ∷ ops) b =
      let first = step op b in
      let rest = run ops first.buffer in
      record rest { taken = first.taken ++ rest.taken; handed = first.handed ++ rest.handed }

  -- A queue: what is handed out and what is left is what was there and what was taken in; and the
  -- capacity holds if it held.
  abbrev pub IsQueue : Buffer Msg → Trace Msg → Type ℓ
  IsQueue b t = (t.handed ++ t.buffer.items ≡ b.items ++ t.taken) × (t.buffer.capacity ≡ b.capacity)

  push-IsQueue : (msg : Msg) (b : Buffer Msg) → IsQueue b (step (pushes msg) b)
  unfolding push
  push-IsQueue msg b = elim (Bool-cases (leb b.capacity (length b.items))) [
    | inl full ↦ rw full (sym (append-nil b.items), refl)
    | inr room ↦ rw room (refl, refl)
  ]

  pop-IsQueue :
      (items : List Msg) (n : ℕ)
      → let b : Buffer Msg = record { items = items; capacity = n } in IsQueue b (step pops b)
  unfolding pop
  pop-IsQueue [] n = (refl, refl)
  pop-IsQueue (msg ∷ rest) n = (sym (append-nil (msg ∷ rest)), refl)

  step-IsQueue : (op : Op Msg) (b : Buffer Msg) → IsQueue b (step op b)
  unfolding drain_all
  step-IsQueue (pushes msg) b = push-IsQueue msg b
  step-IsQueue pops b = pop-IsQueue b.items b.capacity
  step-IsQueue drains b = (refl, refl)

  push_bounded :
      (msg : Msg) (b : Buffer Msg)
      → length b.items ≤ b.capacity
      → length (push msg b).0.items ≤ b.capacity
  unfolding push
  push_bounded msg b h = ground (arith, length-append b.items (msg ∷ []))

  pop_bounded :
      (items : List Msg) (n : ℕ)
      → length items ≤ n
      → length (pop (record { items = items; capacity = n })).0.items ≤ n
  unfolding pop
  pop_bounded [] n h = omega arith
  pop_bounded (msg ∷ rest) n h = omega (arith, h)

  step_bounded :
      (op : Op Msg) (b : Buffer Msg)
      → length b.items ≤ b.capacity
      → length (step op b).buffer.items ≤ b.capacity
  unfolding drain_all
  step_bounded (pushes msg) b h = push_bounded msg b h
  step_bounded pops b h = pop_bounded b.items b.capacity h
  step_bounded drains b h = omega arith

  -- Over any sequence of calls the buffer is a bounded queue: what it handed out, followed by what it
  -- still holds, is what it held at first followed by what it took in, in the same order, and it
  -- holds no more than its capacity if it did so at first.
  pub run-IsQueue :
      (ops : List (Op Msg)) (b : Buffer Msg)
      → length b.items ≤ b.capacity
      → IsQueue b (run ops b) × (length (run ops b).buffer.items ≤ b.capacity)
  run-IsQueue [] b h = ((sym (append-nil b.items), refl), h)
  run-IsQueue (op ∷ ops) b h =
      let first = step op b in
      let rest = run ops first.buffer in
      let one = step-IsQueue op b in
      let room : length first.buffer.items ≤ first.buffer.capacity =
        rw one.1 (step_bounded op b h) in
      let (later, bound) = run-IsQueue ops first.buffer room in
      (
        (
          append_assoc first.handed rest.handed rest.buffer.items
              ∙ ap (λ l. first.handed ++ l) later.0
              ∙ sym (append_assoc first.handed first.buffer.items rest.taken)
              ∙ ap (λ l. l ++ rest.taken) one.0
              ∙ append_assoc b.items first.taken rest.taken,
          later.1 ∙ one.1,
        ),
        subst (λ n. length rest.buffer.items ≤ n) one.1 bound,
      )
