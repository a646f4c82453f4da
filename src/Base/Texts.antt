-- ===== src/Base/Texts.antt =====
-- Texts taken apart character by character.
use Prim.Native.Char.{code}
use Prim.Native.String.{String, ◌++◌}
use Prim.Native.Nat.{ℕ}
use mathlib.Core.Path.{◌≡◌}
use mathlib.Core.Bool.{Bool, true, false, ◌||◌}
use mathlib.Core.Option.{Option, none, some}
use k8s4claw.Base.Tests.{if◌then◌else◌, ◌==◌}

-- `+` of texts.
infixr 65 ◌<>◌
abbrev pub ◌<>◌ : String → String → String
s <> t = s ++ t

-- `strings.HasPrefix(s, p)`
unfoldable pub has_prefix : String → String → Bool
has_prefix s String.[] = true
has_prefix String.[] (String.◌∷◌ d p) = false
has_prefix (String.◌∷◌ c s) (String.◌∷◌ d p) = if code c == code d then has_prefix s p else false

-- `strings.TrimPrefix(s, p)`: `none` if the prefix is not there.
unfoldable pub cut_prefix : String → String → Option String
cut_prefix s String.[] = some s
cut_prefix String.[] (String.◌∷◌ d p) = none
cut_prefix (String.◌∷◌ c s) (String.◌∷◌ d p) = if code c == code d then cut_prefix s p else none

-- `strings.Contains(s, p)`
unfoldable pub contains : String → String → Bool
contains String.[] p = has_prefix "" p
contains (String.◌∷◌ c s) p = has_prefix (String.◌∷◌ c s) p || contains s p

-- What stands behind the first occurrence of an ASCII character.
unfoldable pub after_first : ℕ → String → Option String
after_first k String.[] = none
after_first k (String.◌∷◌ c s) = let rest = after_first k s in if code c == k then some s else rest

-- What stands behind the last occurrence.
unfoldable pub after_last : ℕ → String → Option String
after_last k String.[] = none
after_last k (String.◌∷◌ c s) = elim (after_last k s) [
  | none ↦ if code c == k then some s else none
  | some r ↦ some r
]

-- The text in front of the first occurrence.
unfoldable pub before_first : ℕ → String → String
before_first k String.[] = ""
before_first k (String.◌∷◌ c s) =
    let rest = before_first k s in if code c == k then "" else String.◌∷◌ c rest

-- The character does not occur.
abbrev pub Lacks : ℕ → String → Type 0
Lacks k s = after_first k s ≡ none
