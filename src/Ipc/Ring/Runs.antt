-- ===== src/Ipc/Ring/Runs.antt =====
-- Any sequence of pushes and pops on a new ring buffer (internal/ipcbus/ringbuffer.go).
use k8s4claw.Base.{
  ℕ, ◌≡◌, refl, ◌∙◌, ap, ap₂, Bool, true, Option, none, some, List, [], ◌∷◌, map, ℤ, arith,
}
use k8s4claw.Ipc.Float.{Float}
use k8s4claw.Ipc.Ring.{RingBuffer, size_of, new_ring_buffer, push, pop}
use k8s4claw.Ipc.Ring.Bounds.{IsValid, new_ring_buffer-IsValid, push-IsValid, pop-IsValid}
use k8s4claw.Ipc.Ring.Refine.{Holds, enqueue, dequeue, push_refines, pop_refines}

pub data Use (A : Type 0) : Type 0 where
  pushes : A → Use A
  pops : Use A

-- What a use answers: whether a push was accepted, and the message of a pop.
abbrev pub Answer : Type 0 → Type 0
Answer A = Bool × Option A

unfoldable pub run_queue : {A : Type 0} → ℕ → List (Use A) → List A → List (Answer A)
run_queue n [] q = []
run_queue n (pushes x ∷ uses) q =
    let rest = run_queue n uses (enqueue n q x).0 in ((enqueue n q x).1, none) ∷ rest
run_queue n (pops ∷ uses) q =
    let rest = run_queue n uses (dequeue q).0 in (true, (dequeue q).1) ∷ rest

module _ (fl : Float) where
  open fl use {F}

  module _ {A : Type 0} where
    unfoldable pub run_ring : List (Use A) → RingBuffer F A → List (Answer A)
    run_ring [] rb = []
    run_ring (pushes x ∷ uses) rb =
        let rest = run_ring uses (push fl rb x).0 in ((push fl rb x).1, none) ∷ rest
    run_ring (pops ∷ uses) rb =
        let rest = run_ring uses (pop fl rb).0 in (true, (pop fl rb).1) ∷ rest

    push-size : (rb : RingBuffer F A) (x : A) → (push fl rb x).0.size ≡ rb.size
    unfolding push
    push-size rb x = ground arith

    pop-size : (rb : RingBuffer F A) → (pop fl rb).0.size ≡ rb.size
    unfolding pop
    pop-size rb = ground arith

    run-Holds :
        (n : ℕ) (uses : List (Use A)) (rb : RingBuffer F A) (q : List A)
        → rb.size ≡ n
        → IsValid rb
        → Holds rb q
        → run_ring uses rb ≡ run_queue n uses q
    unfolding run_ring run_queue
    run-Holds n [] rb q s v e = refl
    run-Holds n (pushes x ∷ uses) rb q s v e =
        let one = push_refines fl rb q x v e in
        ap₂ (λ b r. (b, none) ∷ r) (one.1 ∙ ap (λ k. (enqueue k q x).1) s)
          (run-Holds n uses (push fl rb x).0 (enqueue n q x).0 (push-size rb x ∙ s)
            (push-IsValid fl rb x v) (one.0 ∙ ap (λ k. map some (enqueue k q x).0) s))
    run-Holds n (pops ∷ uses) rb q s v e =
        let one = pop_refines fl rb q v e in
        ap₂ (λ o r. (true, o) ∷ r) one.1
          (run-Holds n uses (pop fl rb).0 (dequeue q).0 (pop-size rb ∙ s) (pop-IsValid fl rb v)
            one.0)

    -- Any sequence of pushes and pops on a new ring buffer gives the same answers as on an empty
    -- first-in first-out queue that takes as many messages as the buffer has slots: whether each
    -- push is accepted, and which message each pop hands over, if any.
    pub run_refines :
        (n : ℤ) (h l : F) (uses : List (Use A))
        → run_ring uses (new_ring_buffer fl n h l) ≡ run_queue (size_of n) uses []
    unfolding new_ring_buffer
    run_refines n h l uses =
        run-Holds (size_of n) uses (new_ring_buffer fl n h l) [] refl
          (new_ring_buffer-IsValid fl {A = A} n h l) refl
