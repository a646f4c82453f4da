-- ===== src/Ipc/Ring/Refine.antt =====
-- A valid ring buffer behaves as the bounded first-in first-out queue of the messages it holds.
use mathlib.Core.List.{map-append}
use native.Mathlib.Decide.{dec_lt}
use native.Mathlib.Numerals.{add-one}
use native.Mathlib.Nat.{add-zero, mod-eq-sub-mod, mod-add-mod, mod-eq_of_lt}
use k8s4claw.Base.{
  length-map, ℕ, zero, suc, ◌+◌, ◌-◌, ◌%◌, ◌≤◌, ◌<◌, ◌≡◌, ◌≢◌, refl, ap, ap₂, sym, ◌∙◌, Bool, true,
  false, Option, none, some, List, [], ◌∷◌, ◌++◌, map, arith, length, get_or, set, get_or-set_self,
  get_or-set_ne, if◌then◌else◌, ◌==◌,
}
use k8s4claw.Ipc.Float.{Float}
use k8s4claw.Ipc.Ring.{RingBuffer, push, pop}
use k8s4claw.Ipc.Ring.Bounds.{IsValid}

module _ {A : Type 0} where
  -- The `c` slots from index `h` on, round a buffer of `n`.
  abbrev pub slots : List (Option A) → ℕ → ℕ → ℕ → List (Option A)
  slots buf n h zero = []
  slots buf n h (suc c) = get_or buf h none ∷ slots buf n ((h + 1) % n) c

module _ (n : ℕ) where
  shift : (h m : ℕ) → (h + suc m) % n ≡ ((h + 1) % n + m) % n
  shift h m = rw mod-add-mod (ap (λ t. t % n) (omega arith))

  -- Fewer than `n` steps round the buffer do not come back to the start.
  round-ne : (h m : ℕ) → h < n → 0 < m → m < n → (h + m) % n ≢ h
  round-ne h m hh m0 hm = elim (dec_lt (h + m) n) [
    | yes inside ↦ omega (mod-eq_of_lt inside, arith)
    | no past ↦ omega (
      mod-eq_of_lt {n = h + m - n} {m = n} (omega arith),
      mod-eq-sub-mod {n = h + m} {m = n} (omega arith),
      arith,
    )
  ]

  -- `n` steps do.
  full_circle : (h : ℕ) → h < n → h ≡ ((h + 1) % n + (n - 1)) % n
  full_circle h hh = rw mod-add-mod (
      omega (
        arith,
        mod-eq-sub-mod {n = h + 1 + (n - 1)} {m = n} (omega arith),
        mod-eq_of_lt {n = h + 1 + (n - 1) - n} {m = n} (omega arith),
      ))

module _ {A : Type 0} (n : ℕ) where
  -- A write behind the window leaves the window alone.
  slots-set_outside :
      (buf : List (Option A)) (x : Option A) (c h m i : ℕ)
      → h < n
      → m < n
      → c ≤ m
      → i ≡ (h + m) % n
      → slots (set buf i x) n h c ≡ slots buf n h c
  slots-set_outside buf x zero h m i hh hm hc e = refl
  slots-set_outside buf x (suc c) h zero i hh hm hc e = absurd (omega arith)
  slots-set_outside buf x (suc c) h (suc m) i hh hm hc e =
      ap₂ ◌∷◌ (get_or-set_ne buf i h x none (rw e (round-ne n h (suc m) hh (omega arith) hm))) (
        slots-set_outside buf x c ((h + 1) % n) m i (omega arith) (omega arith) (omega arith)
          (e ∙ shift n h m))

  -- One more slot comes at the end.
  slots-suc :
      (buf : List (Option A)) (c h : ℕ)
      → h < n
      → slots buf n h (suc c) ≡ slots buf n h c ++ (get_or buf ((h + c) % n) none ∷ [])
  slots-suc buf zero h hh = rw (add-zero, mod-eq_of_lt hh)
  slots-suc buf (suc c) h hh =
      ap (λ t. get_or buf h none ∷ t)
        (slots-suc buf c ((h + 1) % n) (omega arith)
          ∙ ap (λ k. slots buf n ((h + 1) % n) c ++ (get_or buf k none ∷ [])) (sym (shift n h c)))

  slots-set :
      (buf : List (Option A)) (x : Option A) (c h i : ℕ)
      → length buf ≡ n
      → h < n
      → c < n
      → i ≡ (h + c) % n
      → slots (set buf i x) n h (c + 1) ≡ slots buf n h c ++ (x ∷ [])
  slots-set buf x c h i len hh hc e = rw add-one (
      slots-suc (set buf i x) c h hh
      ∙ ap₂ (λ s y. s ++ (y ∷ [])) (slots-set_outside buf x c h c i hh hc (omega arith) e)
          (rw (← e) (get_or-set_self buf i x none (omega arith))))

  slots_pred :
      (buf : List (Option A)) (c h : ℕ)
      → c ≢ 0
      → slots buf n h c ≡ get_or buf h none ∷ slots buf n ((h + 1) % n) (c - 1)
  slots_pred buf zero h p = absurd (p refl)
  slots_pred buf (suc c) h p = ap (λ k. slots buf n h (suc k)) (omega arith)

  slots-drop :
      (buf : List (Option A)) (c h : ℕ)
      → h < n
      → c ≢ 0
      → c ≤ n
      → slots (set buf h none) n ((h + 1) % n) (c - 1) ≡ slots buf n ((h + 1) % n) (c - 1)
  slots-drop buf c h hh c0 hc =
      slots-set_outside buf none (c - 1) ((h + 1) % n) (n - 1) h (omega arith) (omega arith)
        (omega arith) (full_circle n h hh)

-- The buffer holds the messages of `q`, oldest first.
abbrev pub Holds : {F A : Type 0} → RingBuffer F A → List A → Type 0
Holds rb q = slots rb.buf rb.size rb.head rb.count ≡ map some q

-- The specification: a queue of at most `n` messages.
unfoldable pub enqueue : {A : Type 0} → ℕ → List A → A → List A × Bool
enqueue n q x = if length q == n then (q, false) else (q ++ (x ∷ []), true)

unfoldable pub dequeue : {A : Type 0} → List A → List A × Option A
dequeue [] = ([], none)
dequeue (x ∷ q) = (q, some x)

length-slots : {A : Type 0} (buf : List (Option A)) (n h c : ℕ) → length (slots buf n h c) ≡ c
length-slots buf n h zero = refl
length-slots buf n h (suc c) = ap suc (length-slots buf n ((h + 1) % n) c)

module _ {F A : Type 0} where
  length-Holds : (rb : RingBuffer F A) (q : List A) → Holds rb q → length q ≡ rb.count
  length-Holds rb q e =
      sym (length-map q some) ∙ sym (ap length e) ∙ length-slots rb.buf rb.size rb.head rb.count

module _ (fl : Float) where
  open fl use {F}

  module _ {A : Type 0} where
    -- `Push` accepts a message exactly when the queue has room, and queues it behind the others.
    pub push_refines :
        (rb : RingBuffer F A) (q : List A) (x : A)
        → IsValid rb
        → Holds rb q
        → Holds (push fl rb x).0 (enqueue rb.size q x).0
          × ((push fl rb x).1 ≡ (enqueue rb.size q x).1)
    unfolding push enqueue
    push_refines rb q x v e = ground (
      arith,
      length-Holds rb q e,
      map-append some q (x ∷ []),
      slots-set rb.size rb.buf (some x) rb.count rb.head rb.tail v.storage v.head_in,
    )

    -- `Pop` hands over the oldest message, or nil if there is none, and keeps the others.
    pub pop_refines :
        (rb : RingBuffer F A) (q : List A)
        → IsValid rb
        → Holds rb q
        → Holds (pop fl rb).0 (dequeue q).0 × ((pop fl rb).1 ≡ (dequeue q).1)
    unfolding pop dequeue
    pop_refines rb [] v e = ground (arith, length-Holds rb [] e)
    pop_refines rb (x ∷ q) v e = ground (
      arith,
      length-Holds rb (x ∷ q) e,
      slots_pred rb.size rb.buf rb.count rb.head,
      slots-drop rb.size rb.buf rb.count rb.head v.head_in,
    )
