-- ===== src/Rules/Engine/Match.antt =====
-- What the engine picks.
use mathlib.Core.Path.{subst₂}
use k8s4claw.Base.{
  ◌≢◌, ℕ, ◌≤◌, ◌≡◌, ◌⊎◌, inl, inr, String, true, false, Option, none, some, List, [], ◌∷◌, arith,
  Bool-cases, Option-cases, All, ltb,
}
use k8s4claw.Rules.Types.{Signal, Rule, severity_rank}
use k8s4claw.Rules.Engine.{
  Engine, rule_matches, first_match, better, best_match, match_highest_priority,
}

module _ (e : Engine) (now : ℕ) (claw : String) where
  -- The first rule that matches, with the rules before it that do not.
  pub first_match_lem :
      (sig : Signal) (rules : List Rule) (rule : Rule)
      → first_match e now claw sig rules ≡ some rule
      → rule_matches e now claw rule sig ≡ true
  unfolding first_match
  first_match_lem sig [] rule q = cc
  first_match_lem sig (r ∷ rules) rule q = ground (arith, first_match_lem sig rules rule)

  pub first_match-none :
      (sig : Signal) (rules : List Rule)
      → first_match e now claw sig rules ≡ none
      → All (λ r. rule_matches e now claw r sig ≡ false) rules
  unfolding first_match
  first_match-none sig [] q = tt
  first_match-none sig (r ∷ rules) q = elim (Bool-cases (rule_matches e now claw r sig)) [
    | inl hit ↦ absurd (ground arith)
    | inr miss ↦ (miss, first_match-none sig rules (ground arith))
  ]

  -- The signal is matched by no rule, or it is no more urgent than the rank.
  abbrev pub Dominated : ℕ → Signal → Type 0
  Dominated rank s =
      All (λ r. rule_matches e now claw r s ≡ false) e.rules ⊎ (severity_rank s.severity ≤ rank)

  -- The best so far, if there is one, is a signal with a rule that matches it.
  abbrev Sound : Option (Signal × Rule) → Type 0
  Sound none = Unit
  Sound (some (s, r)) = rule_matches e now claw r s ≡ true

  abbrev Below : Option (Signal × Rule) → Signal → Type 0
  Below none s = Unit
  Below (some (b, r)) s = severity_rank b.severity ≤ severity_rank s.severity

  better-Sound :
      (best : Option (Signal × Rule)) (sig : Signal) (rule : Rule)
      → Sound best
      → rule_matches e now claw rule sig ≡ true
      → Sound (better best sig (some rule))
  unfolding better
  better-Sound none sig rule sound hit = hit
  better-Sound (some (b, r)) sig rule sound hit =
      elim (Bool-cases (ltb (severity_rank b.severity) (severity_rank sig.severity))) [
        | inl up ↦ rw up hit
        | inr stay ↦ rw stay sound
      ]

  better-Below :
      (best : Option (Signal × Rule)) (sig : Signal) (rule : Rule) (s : Signal)
      → Below (better best sig (some rule)) s
      → Below best s × (severity_rank sig.severity ≤ severity_rank s.severity)
  unfolding better
  better-Below none sig rule s h = (tt, h)
  better-Below (some (b, r)) sig rule s h =
      elim (Bool-cases (ltb (severity_rank b.severity) (severity_rank sig.severity))) [
        | inl up ↦ let h' = rw (up, better) at h in (ground (arith, up, h'), h')
        | inr stay ↦ let h' = rw (stay, better) at h in (h', ground (arith, stay, h'))
      ]

  best_match-some :
      (sigs : List Signal) (best : Option (Signal × Rule)) (s : Signal) (r : Rule)
      → Sound best
      → best_match e now claw sigs best ≡ some (s, r)
      → (rule_matches e now claw r s ≡ true)
        × Below best s
        × All (Dominated (severity_rank s.severity)) sigs
  unfolding best_match
  best_match-some [] none s r sound q = cc
  best_match-some [] (some (b, r')) s r sound q =
      let same : (b ≡ s) × (r' ≡ r) = ground arith in
      (
        subst₂ (λ x y. rule_matches e now claw y x ≡ true) same.0 same.1 sound,
        rw same.0 (omega arith),
        tt,
      )
  best_match-some (sig ∷ sigs) best s r sound q =
      elim (Option-cases (first_match e now claw sig e.rules)) [
        | inl miss ↦
            let rest = best_match-some sigs best s r sound (rw (miss, better) at q) in
            (rest.0, rest.1, (inl (first_match-none sig e.rules miss), rest.2))
        | inr (rule, hit) ↦
            let rest =
              best_match-some sigs (better best sig (some rule)) s r
                (better-Sound best sig rule sound (first_match_lem sig e.rules rule hit))
                (rw hit at q) in
            let (below, rank) = better-Below best sig rule s rest.1 in
            (rest.0, below, (inr rank, rest.2))
      ]

  better-ne-none :
      (best : Option (Signal × Rule)) (sig : Signal) (rule : Rule)
      → better best sig (some rule) ≢ none
  unfolding better
  better-ne-none none sig rule = λ q. cc
  better-ne-none (some (b, r)) sig rule = ground arith

  best_match-none :
      (sigs : List Signal) (best : Option (Signal × Rule))
      → best_match e now claw sigs best ≡ none
      → (best ≡ none) × All (λ s. All (λ r. rule_matches e now claw r s ≡ false) e.rules) sigs
  unfolding best_match
  best_match-none [] best q = (q, tt)
  best_match-none (sig ∷ sigs) best q = elim (Option-cases (first_match e now claw sig e.rules)) [
    | inl miss ↦
        let rest = best_match-none sigs best (rw (miss, better) at q) in
        (rest.0, (first_match-none sig e.rules miss, rest.1))
    | inr (rule, hit) ↦ absurd (
        better-ne-none best sig rule
          (best_match-none sigs (better best sig (some rule)) (rw hit at q)).0)
  ]

  -- The signal and the rule that the engine picks: the rule matches the signal, and every other
  -- signal is either matched by no rule or no more urgent.
  pub match_highest_priority_best :
      (sigs : List Signal) (s : Signal) (r : Rule)
      → match_highest_priority e now claw sigs ≡ some (s, r)
      → (rule_matches e now claw r s ≡ true) × All (Dominated (severity_rank s.severity)) sigs
  unfolding match_highest_priority
  match_highest_priority_best sigs s r q =
      let best = best_match-some sigs none s r tt q in (best.0, best.2)

  -- The engine picks nothing only if no rule matches any of the signals.
  match_highest_priority-none :
      (sigs : List Signal)
      → match_highest_priority e now claw sigs ≡ none
      → All (λ s. All (λ r. rule_matches e now claw r s ≡ false) e.rules) sigs
  unfolding match_highest_priority
  match_highest_priority-none sigs q = (best_match-none sigs none q).1
