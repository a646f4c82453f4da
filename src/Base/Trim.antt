-- ===== src/Base/Trim.antt =====
-- Texts cut at their ends and at separators.
use Prim.Native.Char.{code}
use Prim.Native.String.{String, ◌++◌}
use Prim.Native.Nat.{ℕ}
use mathlib.Core.Bool.{Bool, ◌||◌, ◌&&◌}
use mathlib.Core.Option.{Option, none, some}
use mathlib.Core.List.{List, [], ◌∷◌}
use k8s4claw.Base.Tests.{if◌then◌else◌, ◌==◌, leb, str_eq}
use k8s4claw.Base.Texts.{cut_prefix}

-- `unicode.IsSpace`, on the code of a character.
unfoldable pub is_space : ℕ → Bool
is_space c =
    (leb 9 c && leb c 13)
    || (c == 32
        || (c == 133
            || (c == 160
                || (c == 5760
                    || ((leb 8192 c && leb c 8202)
                        || (c == 8232
                            || (c == 8233 || (c == 8239 || (c == 8287 || c == 12288)))))))))

-- `strings.TrimLeftFunc`
unfoldable pub trim_left : (ℕ → Bool) → String → String
trim_left drops String.[] = ""
trim_left drops (String.◌∷◌ c s) =
    let rest = trim_left drops s in if drops (code c) then rest else String.◌∷◌ c s

-- `strings.TrimRightFunc`
unfoldable pub trim_right : (ℕ → Bool) → String → String
trim_right drops String.[] = ""
trim_right drops (String.◌∷◌ c s) =
    let rest = trim_right drops s in
    if drops (code c) && str_eq rest "" then "" else String.◌∷◌ c rest

-- `strings.TrimSpace`
unfoldable pub trim_space : String → String
trim_space s = trim_right is_space (trim_left is_space s)

-- `strings.TrimPrefix`
unfoldable pub trim_prefix : String → String → String
trim_prefix s p = elim (cut_prefix s p) [ none ↦ s | some rest ↦ rest ]

-- `strings.HasSuffix`
unfoldable pub has_suffix : String → String → Bool
has_suffix String.[] p = str_eq "" p
has_suffix (String.◌∷◌ c s) p = str_eq (String.◌∷◌ c s) p || has_suffix s p

-- `strings.TrimSuffix`
unfoldable pub trim_suffix : String → String → String
trim_suffix String.[] p = ""
trim_suffix (String.◌∷◌ c s) p =
    let rest = trim_suffix s p in if str_eq (String.◌∷◌ c s) p then "" else String.◌∷◌ c rest

-- `strings.Cut`: the parts around the first occurrence.
unfoldable pub cut : String → String → Option (String × String)
cut String.[] sep = elim (cut_prefix "" sep) [ none ↦ none | some rest ↦ some ("", rest) ]
cut (String.◌∷◌ c s) sep =
    let later = cut s sep in
    elim (cut_prefix (String.◌∷◌ c s) sep) [
      | some rest ↦ some ("", rest)
      | none ↦ elim later [ none ↦ none | some parts ↦ some (String.◌∷◌ c parts.0, parts.1) ]
    ]

-- The first part gets a character more.
push_front : List String → String → List String
push_front [] c = c ∷ []
push_front (part ∷ parts) c = (c ++ part) ∷ parts

-- `strings.Split` at a character.
unfoldable pub split_at : ℕ → String → List String
unfolding push_front
split_at k String.[] = "" ∷ []
split_at k (String.◌∷◌ c s) =
    let parts = split_at k s in
    if code c == k then "" ∷ parts else push_front parts (String.◌∷◌ c "")
