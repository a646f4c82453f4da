-- ===== src/Ipc/Float.antt =====
-- What the bus uses of `float64`: comparison, the quotient of two counts, and its constants.
-- The laws are those of IEEE arithmetic on values that are not NaN: the order is total, and a
-- correctly rounded quotient is monotone in its numerator.
use k8s4claw.Base.{ℕ, ◌≤◌, ◌<◌, ◌≡◌, ◌⊎◌, Bool, true, false}

pub record Float : Type 1 where
  pub F : Type 0
  -- `a <= b`; `a < b` is its negation turned round.
  pub le : F → F → Bool
  -- `float64(a) / float64(b)`
  pub ratio : ℕ → ℕ → F
  pub f_zero : F
  pub f_one : F
  pub default_high : F
  pub default_low : F
  pub le_total : (a b : F) → (le a b ≡ true) ⊎ (le b a ≡ true)
  pub le_trans : (a b c : F) → le a b ≡ true → le b c ≡ true → le a c ≡ true
  pub ratio_mono : (a b n : ℕ) → a ≤ b → 0 < n → le (ratio a n) (ratio b n) ≡ true
  pub zero-lt-low : le default_low f_zero ≡ false
  pub low-lt-high : le default_high default_low ≡ false
  pub high-le-one : le default_high f_one ≡ true
  pub ratio_zero : (n : ℕ) → 0 < n → ratio 0 n ≡ f_zero
