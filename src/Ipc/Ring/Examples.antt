-- ===== src/Ipc/Ring/Examples.antt =====
-- A fixed-point stand-in for floats: thousandths.
use k8s4claw.Base.{ℕ, ◌*◌, ◌/◌, ◌≤◌, ◌<◌, ◌≡◌, ◌⊎◌, refl, true, leb, arith, le→leb}
use k8s4claw.Ipc.Float.{Float}

pub milli_total : (a b : ℕ) → (leb a b ≡ true) ⊎ (leb b a ≡ true)
milli_total a b = ground arith

pub milli_trans : (a b c : ℕ) → leb a b ≡ true → leb b c ≡ true → leb a c ≡ true
milli_trans a b c p q = ground arith

pub milli_mono : (a b n : ℕ) → a ≤ b → 0 < n → leb (a * 1000 / n) (b * 1000 / n) ≡ true
milli_mono a b n h p = le→leb _ _ (grind arith)

pub milli_zero : (n : ℕ) → 0 < n → 0 * 1000 / n ≡ 0
milli_zero n p = grind arith

-- Thousandths.
abbrev pub milli : Float
milli = record {
  F = ℕ;
  le = leb;
  ratio = λ a b. a * 1000 / b;
  f_zero = 0;
  f_one = 1000;
  default_high = 800;
  default_low = 300;
  le_total = milli_total;
  le_trans = milli_trans;
  ratio_mono = milli_mono;
  zero-lt-low = refl;
  low-lt-high = refl;
  high-le-one = refl;
  ratio_zero = milli_zero;
}
