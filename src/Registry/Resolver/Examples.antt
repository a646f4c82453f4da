-- ===== src/Registry/Resolver/Examples.antt =====
-- A semver library to run the choice of a version with: every text is a version, and a longer text
-- is a greater one.
use k8s4claw.Base.{ℕ, ◌+◌, ◌≡◌, String, Bool, true, false, some, arith, ltb}
use k8s4claw.Registry.Resolver.{Semver}

unfoldable pub measure : String → ℕ
measure String.[] = 0
measure (String.◌∷◌ c s) = 1 + measure s

unfoldable pub longer : String → String → Bool
unfolding measure
longer u v = ltb (measure v) (measure u)

pub longer_asymm : (u v : String) → longer u v ≡ true → longer v u ≡ false
unfolding longer
longer_asymm u v up = ground arith

pub longer_trans : (u v w : String) → longer u v ≡ false → longer v w ≡ false → longer u w ≡ false
unfolding longer
longer_trans u v w low low' = ground arith

pub text_same : (s v : String) → some s ≡ some v → v ≡ s
text_same s v q = ground arith

abbrev pub by_length : Semver
by_length = record {
  Version = String;
  Constraint = Unit;
  new_constraint = λ s. some tt;
  new_version = some;
  original = λ v. v;
  check = λ c v. true;
  greater = longer;
  original-new_version = text_same;
  greater_asymm = longer_asymm;
  greater_trans = longer_trans;
}
