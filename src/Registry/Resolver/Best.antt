-- ===== src/Registry/Resolver/Best.antt =====
-- What the chosen version is among the tags (`ResolveBestVersion` of
-- internal/registry/resolver.go).
use k8s4claw.Base.{
  ◌≡◌, sym, ◌≢◌, ◌⊎◌, inl, inr, ◌∙◌, ap, String, true, false, Option, none, some, List, [], ◌∷◌,
  arith, Bool-cases, Option-cases, All,
}
use k8s4claw.Registry.Resolver.{
  Semver, is_failed, current_version, is_candidate, better, best_of, resolve_best_version,
}

-- The text is one of the tags.
abbrev pub Among : String → List String → Type 0
Among s [] = true ≡ false
Among s (tag ∷ tags) = (tag ≡ s) ⊎ Among s tags

module _ (sv : Semver) where
  open sv use {
    Version, Constraint, new_constraint, new_version, original, greater, greater_asymm,
    greater_trans, original-new_version,
  }

  -- The version is the reading of one of the tags.
  abbrev pub Offered : List String → Version → Type 0
  Offered [] v = true ≡ false
  Offered (tag ∷ tags) v = (new_version tag ≡ some v) ⊎ Offered tags v

  Offered-Among : (tags : List String) (v : Version) → Offered tags v → Among (original v) tags
  Offered-Among [] v off = off
  Offered-Among (tag ∷ tags) v (inl read) = inl (sym (original-new_version tag v read))
  Offered-Among (tag ∷ tags) v (inr off) = inr (Offered-Among tags v off)

  -- The tag is no version, or a version that is passed over, or one that is not above `v`.
  abbrev pub Passed : Constraint → Option Version → List String → Version → String → Type 0
  Passed c current failed v tag =
      (w : Version)
      → new_version tag ≡ some w
      → is_candidate sv c current failed w ≡ true
      → greater w v ≡ false

  abbrev Above : Option Version → Version → Type 0
  Above none v = Unit
  Above (some b) v = greater b v ≡ false

  greater_irrefl : (v : Version) → greater v v ≡ false
  greater_irrefl v = elim (Bool-cases (greater v v)) [
    | inl up ↦ greater_asymm v v up
    | inr lower ↦ lower
  ]

  better-Above :
      (best : Option Version) (w v : Version)
      → Above (better sv best w) v
      → Above best v × (greater w v ≡ false)
  better-Above none w v h = (tt, h)
  better-Above (some b) w v h = elim (Bool-cases (greater w b)) [
    | inl up ↦ let h' = rw up at h in (greater_trans b w v (greater_asymm w b up) h', h')
    | inr stay ↦ let h' = rw stay at h in (h', greater_trans w b v stay h')
  ]

  better-from :
      (best : Option Version) (w v : Version)
      → better sv best w ≡ some v
      → (best ≡ some v) ⊎ (w ≡ v)
  better-from none w v q = inr (ground arith)
  better-from (some b) w v q = elim (Bool-cases (greater w b)) [
    | inl up ↦ inr (ground arith)
    | inr stay ↦ inl (ground arith)
  ]

  same_reading :
      (tag : String) (w w' : Version)
      → new_version tag ≡ some w
      → new_version tag ≡ some w'
      → w ≡ w'
  same_reading tag w w' read read' = ground arith

  module _ (c : Constraint) (current : Option Version) (failed : List String) where
    best_of_below :
        (tags : List String) (best : Option Version) (v : Version)
        → best_of sv c current failed tags best ≡ some v
        → Above best v × All (Passed c current failed v) tags
    unfolding best_of
    best_of_below [] none v q = (tt, tt)
    best_of_below [] (some b) v q =
        let same : b ≡ v = ground arith in (rw same (greater_irrefl v), tt)
    best_of_below (tag ∷ tags) best v q = elim (Option-cases (new_version tag)) [
      | inl bad ↦
          let rest = best_of_below tags best v (rw bad at q) in
          (rest.0, (λ w read good. absurd cc, rest.1))
      | inr (w, read) ↦ elim (Bool-cases (is_candidate sv c current failed w)) [
        | inl good ↦
            let rest = best_of_below tags (better sv best w) v (rw (read, good) at q) in
            let (above, low) = better-Above best w v rest.0 in
            (above, (λ w' read' good'. rw (same_reading tag w w' read read') at low, rest.1))
        | inr out ↦
            let rest = best_of_below tags best v (rw (read, out) at q) in
            (
              rest.0,
              (λ w' read' good'. let same = same_reading tag w w' read read' in absurd cc, rest.1),
            )
      ]
    ]

    best_of_from :
        (tags : List String) (best : Option Version) (v : Version)
        → best_of sv c current failed tags best ≡ some v
        → (best ≡ some v) ⊎ ((is_candidate sv c current failed v ≡ true) × Offered tags v)
    unfolding best_of
    best_of_from [] best v q = inl q
    best_of_from (tag ∷ tags) best v q = elim (Option-cases (new_version tag)) [
      | inl bad ↦ elim (best_of_from tags best v (rw bad at q)) [
        | inl old ↦ inl old
        | inr (good, off) ↦ inr (good, inr off)
      ]
      | inr (w, read) ↦ elim (Bool-cases (is_candidate sv c current failed w)) [
        | inl good ↦ elim (best_of_from tags (better sv best w) v (rw (read, good) at q)) [
          | inl old ↦ elim (better-from best w v old) [
            | inl older ↦ inl older
            | inr same ↦ inr (rw same at good, inl (read ∙ ap some same))
          ]
          | inr (good', off) ↦ inr (good', inr off)
        ]
        | inr out ↦ elim (best_of_from tags best v (rw (read, out) at q)) [
          | inl old ↦ inl old
          | inr (good', off) ↦ inr (good', inr off)
        ]
      ]
    ]

  better-ne-none : (best : Option Version) (w : Version) → better sv best w ≢ none
  better-ne-none none w = λ q. cc
  better-ne-none (some b) w = ground arith

  -- The tag is no version, or a version that is passed over.
  abbrev pub Rejected : Constraint → Option Version → List String → String → Type 0
  Rejected c current failed tag =
      (w : Version) → new_version tag ≡ some w → is_candidate sv c current failed w ≡ false

  best_of-none :
      (c : Constraint) (current : Option Version) (failed tags : List String)
      (best : Option Version)
      → best_of sv c current failed tags best ≡ none
      → (best ≡ none) × All (Rejected c current failed) tags
  unfolding best_of
  best_of-none c current failed [] best q = (q, tt)
  best_of-none c current failed (tag ∷ tags) best q = elim (Option-cases (new_version tag)) [
    | inl bad ↦
        let rest = best_of-none c current failed tags best (rw bad at q) in
        (rest.0, (λ w read. absurd cc, rest.1))
    | inr (w, read) ↦ elim (Bool-cases (is_candidate sv c current failed w)) [
      | inl good ↦ absurd (
          better-ne-none best w
            (best_of-none c current failed tags (better sv best w) (rw (read, good) at q)).0)
      | inr out ↦
          let rest = best_of-none c current failed tags best (rw (read, out) at q) in
          (rest.0, (λ w' read'. rw (same_reading tag w w' read read') at out, rest.1))
    ]
  ]

  -- With a constraint that parses, the text returned is one of the tags and the text of a version
  -- that one of them reads as. That version satisfies the constraint, has not failed before and is
  -- above the current one, and no tag's version with these properties is greater.
  pub resolve_best_version_best :
      (c : Constraint) (tags : List String) (constraint current : String) (failed : List String)
      (result : String)
      → new_constraint constraint ≡ some c
      → resolve_best_version sv tags constraint current failed ≡ some result
      → (v : Version) × (result ≡ original v)
        × (is_candidate sv c (current_version sv current) failed v ≡ true)
        × Among (original v) tags
        × Offered tags v
        × All (Passed c (current_version sv current) failed v) tags
  unfolding resolve_best_version
  resolve_best_version_best c tags constraint current failed result parsed q =
      elim (Option-cases (best_of sv c (current_version sv current) failed tags none)) [
        | inl nothing ↦ absurd (ground arith)
        | inr (v, found) ↦
            elim (best_of_from c (current_version sv current) failed tags none v found) [
              | inl old ↦ absurd cc
              | inr (good, off) ↦ (
                v,
                ground arith,
                good,
                Offered-Among tags v off,
                off,
                (best_of_below c (current_version sv current) failed tags none v found).1,
              )
            ]
      ]

  unparsed :
      (tags : List String) (constraint current : String) (failed : List String) (result : String)
      → new_constraint constraint ≡ none
      → resolve_best_version sv tags constraint current failed ≢ some result
  unfolding resolve_best_version
  unparsed tags constraint current failed result broken = ground arith

  candidate-fresh :
      (c : Constraint) (current : Option Version) (failed : List String) (v : Version)
      → is_candidate sv c current failed v ≡ true
      → is_failed failed (original v) ≢ true
  unfolding is_candidate
  candidate-fresh c current failed v good = ground arith

  -- A version that failed before is never returned, whatever the tags and the constraint are.
  pub resolve_best_version_skips :
      (tags : List String) (constraint current : String) (failed : List String) (result : String)
      → is_failed failed result ≡ true
      → resolve_best_version sv tags constraint current failed ≢ some result
  resolve_best_version_skips tags constraint current failed result bad q =
      elim (Option-cases (new_constraint constraint)) [
        | inl broken ↦ absurd (unparsed tags constraint current failed result broken q)
        | inr (c, parsed) ↦
            let (v, text, good, among, off, top) =
              resolve_best_version_best c tags constraint current failed result parsed q in
            candidate-fresh c (current_version sv current) failed v good (rw text at bad)
      ]

  -- With a constraint that parses, no version is returned only if every tag is no version or one
  -- that violates the constraint, has failed before or is not above the current one.
  resolve_best_version-none :
      (c : Constraint) (tags : List String) (constraint current : String) (failed : List String)
      → new_constraint constraint ≡ some c
      → resolve_best_version sv tags constraint current failed ≡ none
      → All (Rejected c (current_version sv current) failed) tags
  unfolding resolve_best_version
  resolve_best_version-none c tags constraint current failed parsed q =
      (best_of-none c (current_version sv current) failed tags none
        (elim (Option-cases (best_of sv c (current_version sv current) failed tags none)) [
          | inl nothing ↦ nothing
          | inr (v, found) ↦ absurd (ground arith)
        ])).1
