-- ===== src/Rules/Engine/Picked.antt =====
-- The engine picks one of the signals and one of its rules (internal/rules/engine.go).
use mathlib.Core.Path.{subst}
use mathlib.Core.Option.{some_inj}
use k8s4claw.Base.{
  ℕ, ◌≡◌, ap, inl, inr, String, Option, none, some, List, [], ◌∷◌, arith, All, Bool-cases, ltb,
}
use k8s4claw.Rules.Types.{Signal, Rule, severity_rank}
use k8s4claw.Rules.Engine.{
  Engine, first_match, rule_matches, better, best_match, match_highest_priority,
}

module _ (e : Engine) (now : ℕ) (claw : String) where
  first_match-All {κ} :
      (Good : Rule → Type κ) (sig : Signal) (rules : List Rule) (rule : Rule)
      → All Good rules
      → first_match e now claw sig rules ≡ some rule
      → Good rule
  unfolding first_match
  first_match-All Good sig [] rule h q = absurd (ground arith)
  first_match-All Good sig (r ∷ rules) rule (h, hs) q =
      elim (Bool-cases (rule_matches e now claw r sig)) [
        | inl hit ↦ subst Good (some_inj.0 (rw (hit, first_match) at q)) h
        | inr miss ↦ first_match-All Good sig rules rule hs (rw (miss, first_match) at q)
      ]

  module _ {κ μ} (GoodSignal : Signal → Type κ) (GoodRule : Rule → Type μ) where
    abbrev Chosen : Option (Signal × Rule) → Type (κ ⊔ μ)
    Chosen best = (s : Signal) (r : Rule) → best ≡ some (s, r) → GoodSignal s × GoodRule r

    better-Chosen :
        (best : Option (Signal × Rule)) (sig : Signal) (found : Option Rule)
        → Chosen best
        → GoodSignal sig
        → ((r : Rule) → found ≡ some r → GoodRule r)
        → Chosen (better best sig found)
    unfolding better
    better-Chosen best sig none h good rules = h
    better-Chosen none sig (some rule) h good rules = λ s r q.
        let same = some_inj.0 q in
        (subst GoodSignal (ap (λ x. x.0) same) good, rules r (ap (λ x. some x.1) same))
    better-Chosen (some (b, b')) sig (some rule) h good rules =
        elim (Bool-cases (ltb (severity_rank b.severity) (severity_rank sig.severity))) [
          | inr stay ↦ λ s r q. h s r (rw (stay, better) at q)
          | inl up ↦ λ s r q.
              let same = some_inj.0 (rw (up, better) at q) in
              (subst GoodSignal (ap (λ x. x.0) same) good, rules r (ap (λ x. some x.1) same))
        ]

    best_match-Chosen :
        (sigs : List Signal) (best : Option (Signal × Rule))
        → Chosen best
        → All GoodSignal sigs
        → All GoodRule e.rules
        → Chosen (best_match e now claw sigs best)
    unfolding best_match
    best_match-Chosen [] best h goods rules = h
    best_match-Chosen (sig ∷ sigs) best h (good, goods) rules =
        best_match-Chosen sigs (better best sig (first_match e now claw sig e.rules))
          (better-Chosen best sig (first_match e now claw sig e.rules) h good
            (λ r q. first_match-All GoodRule sig e.rules r rules q))
          goods rules

    -- What holds of every signal and of every rule holds of those that are picked.
    pub match_highest_priority-All :
        (sigs : List Signal) (s : Signal) (r : Rule)
        → match_highest_priority e now claw sigs ≡ some (s, r)
        → All GoodSignal sigs
        → All GoodRule e.rules
        → GoodSignal s × GoodRule r
    unfolding match_highest_priority
    match_highest_priority-All sigs s r q goods rules =
        best_match-Chosen sigs none (λ s' r' bad. absurd (ground arith)) goods rules s r q
