-- ===== src/Registry/Resolver.antt =====
-- The choice of a version: `ResolveBestVersion` of internal/registry/resolver.go. The semver
-- library is a parameter.
pub mod Best
pub mod Examples
mod Tests
use k8s4claw.Base.{
  ℕ, ◌≡◌, String, Bool, true, false, not, ◌&&◌, ◌||◌, Option, none, some, List, [], ◌∷◌,
  if◌then◌else◌, str_eq,
}

-- Versions and constraints. A version remembers the text that it was read from; `greater` is a
-- strict order whose negation is transitive.
pub record Semver : Type 1 where
  pub Version : Type 0
  pub Constraint : Type 0
  pub new_constraint : String → Option Constraint
  pub new_version : String → Option Version
  pub original : Version → String
  pub check : Constraint → Version → Bool
  pub greater : Version → Version → Bool
  pub original-new_version : (s : String) (v : Version) → new_version s ≡ some v → original v ≡ s
  pub greater_asymm : (u v : Version) → greater u v ≡ true → greater v u ≡ false
  pub greater_trans :
      (u v w : Version) → greater u v ≡ false → greater v w ≡ false → greater u w ≡ false

-- `failedSet[v]`
unfoldable pub is_failed : List String → String → Bool
is_failed [] v = false
is_failed (f ∷ fs) v = str_eq f v || is_failed fs v

module _ (sv : Semver) where
  open sv use {Version, Constraint, new_constraint, new_version, original, check, greater}

  -- The current version; a text that is empty or no version stands for none.
  unfoldable pub current_version : String → Option Version
  current_version current = if str_eq current "" then none else new_version current

  exceeds : Version → Option Version → Bool
  exceeds v none = true
  exceeds v (some c) = greater v c

  -- Whether the loop considers a version: none of its `continue`s is taken.
  unfoldable pub is_candidate : Constraint → Option Version → List String → Version → Bool
  unfolding exceeds
  is_candidate c current failed v =
      check c v && (not (is_failed failed (original v)) && exceeds v current)

  abbrev better : Option Version → Version → Option Version
  better none v = some v
  better (some b) v = if greater v b then some v else some b

  unfoldable pub best_of :
      Constraint → Option Version → List String → List String → Option Version → Option Version
  best_of c current failed [] best = best
  best_of c current failed (tag ∷ tags) best =
      best_of c current failed tags (elim (new_version tag) [
        | none ↦ best
        | some v ↦ if is_candidate c current failed v then better best v else best
      ])

  unfoldable pub resolve_best_version : List String → String → String → List String → Option String
  resolve_best_version tags constraint current failed = elim (new_constraint constraint) [
    | none ↦ none
    | some c ↦ elim (best_of c (current_version current) failed tags none) [
      | none ↦ none
      | some v ↦ some (original v)
    ]
  ]
