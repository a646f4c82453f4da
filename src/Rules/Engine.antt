-- ===== src/Rules/Engine.antt =====
-- The rule engine: internal/rules/engine.go. Each method runs under the engine's lock; `now` is
-- the clock at the call, in nanoseconds.
pub mod Match
pub mod Picked
pub mod Cooldown
mod Tests
use k8s4claw.Base.{
  ℕ, ◌+◌, ◌-◌, String, Bool, true, false, not, ◌&&◌, ◌||◌, Option, none, some, List, [], ◌∷◌,
  if◌then◌else◌, ltb, leb, str_eq, Dict, lookup, insert,
}
use k8s4claw.Rules.Types.{Signal, Rule, severity_rank}

pub record Engine : Type 0 where
  pub rules : List Rule
  -- When each rule last ran, by claw and rule.
  pub cooldowns : Dict (Dict ℕ)

unfoldable pub new_engine : List Rule → Engine
new_engine rules = record { rules = rules; cooldowns = [] }

unfoldable pub set_rules : List Rule → Engine → Engine
set_rules rules e = record e { rules = rules }

-- When the rule last ran for the claw.
unfoldable pub last_exec : Engine → String → String → Option ℕ
last_exec e claw id = elim (lookup claw e.cooldowns) [ none ↦ none | some m ↦ lookup id m ]

-- Whether the last run is more recent than the cooldown. A clock set back counts as no time.
cooling : ℕ → ℕ → Option ℕ → Bool
cooling now cooldown none = false
cooling now cooldown (some last) = ltb (now - last) cooldown

unfoldable pub rule_matches : Engine → ℕ → String → Rule → Signal → Bool
unfolding cooling
rule_matches e now claw rule sig =
    if not (str_eq rule.match.signal_type sig.type)
    then false
    else (if ltb (severity_rank sig.severity) (severity_rank rule.match.min_severity)
        then false
        else (if ltb sig.count rule.match.min_count
            then false
            else not (ltb 0 rule.cooldown && cooling now rule.cooldown (last_exec e claw rule.id))))

-- The loop over the rules; `none` stands for `false` beside the empty rule.
unfoldable pub first_match : Engine → ℕ → String → Signal → List Rule → Option Rule
first_match e now claw sig [] = none
first_match e now claw sig (rule ∷ rules) =
    let rest = first_match e now claw sig rules in
    if rule_matches e now claw rule sig then some rule else rest

unfoldable pub match_signal : Engine → ℕ → String → Signal → Option Rule
match_signal e now claw sig = first_match e now claw sig e.rules

-- One round of the outer loop; no best yet stands for the rank -1.
better : Option (Signal × Rule) → Signal → Option Rule → Option (Signal × Rule)
better best sig none = best
better none sig (some rule) = some (sig, rule)
better (some (s, r)) sig (some rule) =
    if ltb (severity_rank s.severity) (severity_rank sig.severity)
    then some (sig, rule)
    else some (s, r)

unfoldable pub best_match :
    Engine → ℕ → String → List Signal → Option (Signal × Rule) → Option (Signal × Rule)
unfolding better
best_match e now claw [] best = best
best_match e now claw (sig ∷ sigs) best =
    best_match e now claw sigs (better best sig (first_match e now claw sig e.rules))

unfoldable pub match_highest_priority : Engine → ℕ → String → List Signal → Option (Signal × Rule)
match_highest_priority e now claw sigs = best_match e now claw sigs none

unfoldable pub record_execution : ℕ → String → String → Engine → Engine
record_execution now claw id e = record e {
  cooldowns =
      insert claw (insert id now (elim (lookup claw e.cooldowns) [ none ↦ [] | some m ↦ m ]))
        e.cooldowns;
}
