-- ===== src/Base/Lists.antt =====
-- Slices as lists measured and indexed by native numbers.
use Prim.Native.Nat.{ℕ, zero, suc, ◌+◌, ◌-◌, ◌≤◌, ◌<◌}
use mathlib.Core.Path.{◌≡◌, refl, ap}
use mathlib.Core.Logic.{◌≢◌, inl, inr}
use mathlib.Core.Bool.{Bool, true, false}
use mathlib.Core.List.{List, [], ◌∷◌, ◌++◌, map, Mem, mem-cons_self, mem-cons_of_mem}
use native.Mathlib.Omega.{arith}
use k8s4claw.Base.Tests.{Bool-cases, if◌then◌else◌}

module _ {ℓ} {A : Type ℓ} where
  abbrev pub length : List A → ℕ
  length [] = 0
  length (x ∷ xs) = suc (length xs)

  abbrev pub get_or : List A → ℕ → A → A
  get_or [] i d = d
  get_or (x ∷ xs) zero d = x
  get_or (x ∷ xs) (suc i) d = get_or xs i d

  abbrev pub set : List A → ℕ → A → List A
  set [] i v = []
  set (x ∷ xs) zero v = v ∷ xs
  set (x ∷ xs) (suc i) v = x ∷ set xs i v

  abbrev pub take : ℕ → List A → List A
  take zero xs = []
  take (suc n) [] = []
  take (suc n) (x ∷ xs) = x ∷ take n xs

  abbrev pub drop : ℕ → List A → List A
  drop zero xs = xs
  drop (suc n) [] = []
  drop (suc n) (x ∷ xs) = drop n xs

  abbrev pub replicate : ℕ → A → List A
  replicate zero a = []
  replicate (suc n) a = a ∷ replicate n a

  -- The elements that pass a test, in order.
  abbrev pub keep : (A → Bool) → List A → List A
  keep p [] = []
  keep p (x ∷ xs) = let rest = keep p xs in if p x then x ∷ rest else rest

module _ {ℓ} {A : Type ℓ} where
  pub length-append : (xs ys : List A) → length (xs ++ ys) ≡ length xs + length ys
  length-append [] ys = omega arith
  length-append (x ∷ xs) ys = omega (arith, length-append xs ys)

  pub length-set : (xs : List A) (i : ℕ) (v : A) → length (set xs i v) ≡ length xs
  length-set [] i v = refl
  length-set (x ∷ xs) zero v = refl
  length-set (x ∷ xs) (suc i) v = ap suc (length-set xs i v)

  pub length-replicate : (n : ℕ) (a : A) → length (replicate n a) ≡ n
  length-replicate zero a = refl
  length-replicate (suc n) a = ap suc (length-replicate n a)

  pub length-drop : (n : ℕ) (xs : List A) → length (drop n xs) ≡ length xs - n
  length-drop zero xs = omega arith
  length-drop (suc n) [] = omega arith
  length-drop (suc n) (x ∷ xs) = omega (arith, length-drop n xs)

  pub length-map {κ} : {B : Type κ} (xs : List A) (f : A → B) → length (map f xs) ≡ length xs
  length-map [] f = refl
  length-map (x ∷ xs) f = ap suc (length-map xs f)

  pub get_or-set_self :
      (xs : List A) (i : ℕ) (v d : A) → i < length xs → get_or (set xs i v) i d ≡ v
  get_or-set_self [] i v d h = elim h [ ]
  get_or-set_self (x ∷ xs) zero v d h = refl
  get_or-set_self (x ∷ xs) (suc i) v d h = get_or-set_self xs i v d (omega arith)

  pub get_or-set_ne :
      (xs : List A) (i j : ℕ) (v d : A) → i ≢ j → get_or (set xs i v) j d ≡ get_or xs j d
  get_or-set_ne [] i j v d h = refl
  get_or-set_ne (x ∷ xs) zero zero v d h = absurd (h refl)
  get_or-set_ne (x ∷ xs) zero (suc j) v d h = refl
  get_or-set_ne (x ∷ xs) (suc i) zero v d h = refl
  get_or-set_ne (x ∷ xs) (suc i) (suc j) v d h = get_or-set_ne xs i j v d (λ e. h (ap suc e))

  length-keep-le : (p : A → Bool) (xs : List A) → length (keep p xs) ≤ length xs
  length-keep-le p [] = omega arith
  length-keep-le p (x ∷ xs) = ground (arith, length-keep-le p xs)

-- Every element satisfies the predicate.
abbrev pub All {ℓ κ} : {Elem : Type ℓ} → (Elem → Type κ) → List Elem → Type κ
All Good [] = Unit
All Good (first ∷ others) = Good first × All Good others

module _ {ℓ} {A : Type ℓ} where
  pub keep-append : (p : A → Bool) (xs ys : List A) → keep p (xs ++ ys) ≡ keep p xs ++ keep p ys
  keep-append p [] ys = refl
  keep-append p (x ∷ xs) ys = elim (Bool-cases (p x)) [
    | inl good ↦ rw good (ap (λ zs. x ∷ zs) (keep-append p xs ys))
    | inr bad ↦ rw bad (keep-append p xs ys)
  ]

  pub length-keep-append :
      (p : A → Bool) (xs ys : List A)
      → length (keep p (xs ++ ys)) ≡ length (keep p xs) + length (keep p ys)
  length-keep-append p xs ys = rw (keep-append p xs ys) (length-append (keep p xs) (keep p ys))

  -- A stronger test keeps no more.
  pub length-keep_mono :
      (p q : A → Bool) (xs : List A)
      → ((x : A) → p x ≡ true → q x ≡ true)
      → length (keep p xs) ≤ length (keep q xs)
  length-keep_mono p q [] h = omega arith
  length-keep_mono p q (x ∷ xs) h = ground (arith, h x, length-keep_mono p q xs h)

  -- A stronger test after a weaker one.
  pub keep-keep :
      (p q : A → Bool) (xs : List A)
      → ((x : A) → p x ≡ true → q x ≡ true)
      → keep p (keep q xs) ≡ keep p xs
  keep-keep p q [] h = refl
  keep-keep p q (x ∷ xs) h = ground (arith, h x, keep-keep p q xs h)

  -- Nothing passes.
  pub length-keep-none :
      (p : A → Bool) (xs : List A) → All (λ x. p x ≡ false) xs → length (keep p xs) ≡ 0
  length-keep-none p [] h = refl
  length-keep-none p (x ∷ xs) (h, hs) = rw h (length-keep-none p xs hs)

  pub All-append {κ} :
      (Good : A → Type κ) (xs ys : List A) → All Good xs → All Good ys → All Good (xs ++ ys)
  All-append Good [] ys h k = k
  All-append Good (x ∷ xs) ys (h, hs) k = (h, All-append Good xs ys hs k)

  pub All-keep {κ} :
      (Good : A → Type κ) (p : A → Bool) (xs : List A) → All Good xs → All Good (keep p xs)
  All-keep Good p [] h = tt
  All-keep Good p (x ∷ xs) (h, hs) = elim (Bool-cases (p x)) [
    | inl good ↦ rw (good, All) (h, All-keep Good p xs hs)
    | inr bad ↦ rw bad (All-keep Good p xs hs)
  ]

  -- What is kept passes the test.
  pub keep-All : (p : A → Bool) (xs : List A) → All (λ x. p x ≡ true) (keep p xs)
  keep-All p [] = tt
  keep-All p (x ∷ xs) = elim (Bool-cases (p x)) [
    | inl good ↦ rw (good, All) (good, keep-All p xs)
    | inr bad ↦ rw bad (keep-All p xs)
  ]

  pub if-All {κ} :
      (Good : A → Type κ) (b : Bool) (xs ys : List A)
      → All Good xs
      → All Good ys
      → All Good (if b then xs else ys)
  if-All Good true xs ys h k = h
  if-All Good false xs ys h k = k

  pub All-constant {κ} : (Good : A → Type κ) → ((x : A) → Good x) → (xs : List A) → All Good xs
  All-constant Good h [] = tt
  All-constant Good h (x ∷ xs) = (h x, All-constant Good h xs)

  -- What holds of every element of the list.
  pub Mem-All {κ} : (Good : A → Type κ) (xs : List A) → ((x : A) → Mem x xs → Good x) → All Good xs
  Mem-All Good [] h = tt
  Mem-All Good (x ∷ xs) h = (h x mem-cons_self, Mem-All Good xs (λ y m. h y (mem-cons_of_mem x m)))

  pub All-map {κ μ} :
      (P : A → Type κ) (Q : A → Type μ)
      → ((x : A) → P x → Q x)
      → (xs : List A) → All P xs
      → All Q xs
  All-map P Q f [] h = tt
  All-map P Q f (x ∷ xs) (h, hs) = (f x h, All-map P Q f xs hs)
