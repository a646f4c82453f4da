-- ===== src/Webhook/Empty.antt =====
-- When a list of errors of internal/webhook/claw_validator.go is empty.
use k8s4claw.Base.{
  ◌≡◌, refl, String, Bool, true, false, not, ◌⊎◌, inl, inr, List, [], ◌∷◌, ◌++◌, str_eq, arith,
  Bool-cases,
}
use k8s4claw.Webhook.Types.{FieldError}
use k8s4claw.Webhook.Runtimes.{error_if}
use k8s4claw.Webhook.{unread}

pub append-empty : (xs ys : List FieldError) → xs ++ ys ≡ [] → (xs ≡ []) × (ys ≡ [])
append-empty [] ys q = (refl, q)
append-empty (x ∷ xs) ys q = absurd (ground arith)

pub empty-append : (xs ys : List FieldError) → xs ≡ [] → ys ≡ [] → xs ++ ys ≡ []
empty-append xs ys p q = rw (p, q) refl

pub error_if-not-empty : (b : Bool) (e : FieldError) → error_if (not b) e ≡ [] → b ≡ true
error_if-not-empty true e q = refl
error_if-not-empty false e q = absurd (ground arith)

pub unread-empty :
    (reads : Bool) (text path : String)
    → unread reads text path ≡ []
    → (str_eq text "" ≡ true) ⊎ (reads ≡ true)
unread-empty true text path q = inr refl
unread-empty false text path q = elim (Bool-cases (str_eq text "")) [
  | inl yes_eq ↦ inl yes_eq
  | inr no_eq ↦ absurd (ground arith)
]
