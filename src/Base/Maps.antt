-- ===== src/Base/Maps.antt =====
-- A Go map with string keys, as an association list. The order of its entries is not observable:
-- the theorems speak of `lookup` alone.
use Prim.Native.Nat.{◌+◌, ◌≤◌}
use Prim.Native.String.{String}
use mathlib.Core.Path.{◌≡◌, refl}
use mathlib.Core.Option.{Option, none, some}
use mathlib.Core.List.{List, [], ◌∷◌}
use native.Mathlib.Omega.{arith}
use text.Mathlib.TextEquality.{eq_iff}
use k8s4claw.Base.Tests.{str_eq, if◌then◌else◌}
use k8s4claw.Base.Lists.{length}

abbrev pub Dict {ℓ} : Type ℓ → Type ℓ
Dict V = List (String × V)

module _ {ℓ} {V : Type ℓ} where
  -- `v, ok := m[k]`
  unfoldable pub lookup : String → Dict V → Option V
  lookup key [] = none
  lookup key ((probe, v) ∷ rest) = if str_eq probe key then some v else lookup key rest

  -- `m[k] = v`
  unfoldable pub insert : String → V → Dict V → Dict V
  insert key v [] = (key, v) ∷ []
  insert key v ((probe, old) ∷ rest) =
      if str_eq probe key then (key, v) ∷ rest else (probe, old) ∷ insert key v rest

  -- `delete(m, k)`
  unfoldable pub delete : String → Dict V → Dict V
  delete key [] = []
  delete key ((probe, old) ∷ rest) =
      let kept = delete key rest in if str_eq probe key then kept else (probe, old) ∷ kept

  pub lookup-insert :
      (key probe : String) (v : V) (rest : Dict V)
      → lookup probe (insert key v rest) ≡ (if str_eq key probe then some v else lookup probe rest)
  unfolding lookup insert
  lookup-insert key probe v [] = refl
  lookup-insert key probe v ((name, old) ∷ rest) =
      ground (
        arith,
        lookup-insert key probe v rest,
        eq_iff name probe,
        eq_iff key probe,
        eq_iff name key,
      )

  pub lookup-delete :
      (key probe : String) (rest : Dict V)
      → lookup probe (delete key rest) ≡ (if str_eq key probe then none else lookup probe rest)
  unfolding lookup delete
  lookup-delete key probe [] = ground (arith, eq_iff key probe)
  lookup-delete key probe ((name, old) ∷ rest) =
      ground
        (arith, eq_iff key probe, eq_iff name key, eq_iff name probe, lookup-delete key probe rest)

  pub length-delete-le : (key : String) (rest : Dict V) → length (delete key rest) ≤ length rest
  unfolding delete
  length-delete-le key [] = omega arith
  length-delete-le key ((name, old) ∷ rest) = ground (arith, length-delete-le key rest)

  pub length-insert-le :
      (key : String) (v : V) (rest : Dict V) → length (insert key v rest) ≤ length rest + 1
  unfolding insert
  length-insert-le key v [] = omega arith
  length-insert-le key v ((name, old) ∷ rest) = ground (arith, length-insert-le key v rest)

module _ {ℓ} {V : Type ℓ} where
  -- No key occurs twice.
  abbrev pub IsUnique : Dict V → Type ℓ
  IsUnique [] = Unit
  IsUnique ((key, v) ∷ rest) = (lookup key rest ≡ none) × IsUnique rest
