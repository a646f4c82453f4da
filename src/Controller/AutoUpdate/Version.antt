-- ===== src/Controller/AutoUpdate/Version.antt =====
-- The tag that is read back from an image reference (`extractVersionFromImage` of
-- internal/controller/autoupdate_controller.go).
use Prim.Native.Char.{code}
use Prim.Native.String.{◌++◌}
use text.Mathlib.TextLemmas.{nil-append, cons-append}
use k8s4claw.Base.{
  ℕ, ◌≡◌, refl, ap, ◌∙◌, inl, inr, String, none, some, arith, Option-cases, after_first, after_last,
  Lacks,
}
use k8s4claw.Controller.AutoUpdate.Status.{extract_version_from_image}

after_last-Lacks : (k : ℕ) (s : String) → Lacks k s → after_last k s ≡ none
unfolding after_first after_last
after_last-Lacks k String.[] lacks = refl
after_last-Lacks k (String.◌∷◌ c s) lacks = ground (arith, after_last-Lacks k s)

after_last-append :
    (k : ℕ) (s t r : String) → after_last k t ≡ some r → after_last k (s ++ t) ≡ some r
unfolding after_last
after_last-append k String.[] t r q = rw (nil-append t) q
after_last-append k (String.◌∷◌ c s) t r q =
    let rest = after_last-append k s t r q in rw (cons-append c s t, after_last, rest)

after_last-append_none :
    (k : ℕ) (s t : String) → Lacks k t → after_last k s ≡ none → after_last k (s ++ t) ≡ none
unfolding after_last
after_last-append_none k String.[] t lacks q = rw (nil-append t) (after_last-Lacks k t lacks)
after_last-append_none k (String.◌∷◌ c s) t lacks q =
    let rest = after_last-append_none k s t lacks (ground arith) in
    rw (cons-append c s t, after_last, rest) (ground arith)

-- Behind the last occurrence in front of a text without one, the text follows.
after_last-append_Lacks :
    (k : ℕ) (s t r : String)
    → Lacks k t
    → after_last k s ≡ some r
    → after_last k (s ++ t) ≡ some (r ++ t)
unfolding after_last
after_last-append_Lacks k String.[] t r lacks q = absurd cc
after_last-append_Lacks k (String.◌∷◌ c s) t r lacks q = elim (Option-cases (after_last k s)) [
  | inl nothing ↦
      let here : (code c ≡ k) × (s ≡ r) = ground arith in
      rw (cons-append c s t, after_last, after_last-append_none k s t lacks nothing) (ground arith)
  | inr (r', found) ↦
      rw (cons-append c s t, after_last, after_last-append_Lacks k s t r' lacks found)
        (ground arith)
]

colon_first : (v : String) → ":" ++ v ≡ String.◌∷◌ ":" v
colon_first v = cons-append ":" "" v ∙ ap (String.◌∷◌ ":") (nil-append v)

-- The text behind the last colon of any text, a colon and a text without one is the latter.
colon : (s v : String) → Lacks b':' v → after_last b':' (s ++ ":" ++ v) ≡ some v
unfolding after_last
colon s v lacks =
    after_last-append b':' s (":" ++ v) v
      (rw (colon_first v, after_last, after_last-Lacks b':' v lacks) refl)

-- The version read back from the image that an update asks for is the version that was asked for,
-- whatever the image's name is, if the version has neither a slash nor a colon.
pub extract_version_from_image-append :
    (base v : String)
    → Lacks b'/' v
    → Lacks b':' v
    → extract_version_from_image (base ++ ":" ++ v) ≡ v
unfolding extract_version_from_image after_first
extract_version_from_image-append base v slash lacks =
    let lacks_slash : Lacks b'/' (":" ++ v) = rw (colon_first v, after_first, slash) refl in
    elim (Option-cases (after_last b'/' base)) [
      | inl nothing ↦
          rw
            (
              extract_version_from_image,
              after_last-append_none b'/' base (":" ++ v) lacks_slash nothing,
              colon base v lacks,
            )
            refl
      | inr (r, found) ↦
          rw
            (
              extract_version_from_image,
              after_last-append_Lacks b'/' base (":" ++ v) r lacks_slash found,
              colon r v lacks,
            )
            refl
    ]
