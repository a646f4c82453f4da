-- ===== src/Rules/Engine/Cooldown.antt =====
-- Cooldowns.
use k8s4claw.Base.{
  ℕ, ◌+◌, ◌<◌, ◌≡◌, refl, String, false, Option, none, some, [], arith, if◌then◌else◌, ◌&&◌, str_eq,
  eq_iff, eq_refl, lookup, insert, lookup-insert, Dict,
}
use k8s4claw.Rules.Types.{Signal, Rule}
use k8s4claw.Rules.Engine.{Engine, last_exec, rule_matches, cooling, record_execution}

-- The times of a claw, none at first.
abbrev times : Option (Dict ℕ) → Dict ℕ
times none = []
times (some m) = m

lookup_nil : (id : String) → lookup {V = ℕ} id [] ≡ none
unfolding lookup
lookup_nil id = refl

-- Recording an execution sets the time of that rule for that claw, and no other time.
pub last_exec-record_execution :
    (e : Engine) (t : ℕ) (claw id claw' id' : String)
    → last_exec (record_execution t claw id e) claw' id'
      ≡ (if str_eq claw claw' && str_eq id id' then some t else last_exec e claw' id')
unfolding last_exec record_execution
last_exec-record_execution e t claw id claw' id' = ground (
  arith,
  lookup-insert claw claw' (insert id t (times (lookup claw e.cooldowns))) e.cooldowns,
  lookup-insert id id' t (times (lookup claw e.cooldowns)),
  eq_iff claw claw',
  lookup_nil id',
)

-- For the length of its cooldown, if that is not zero, a rule that was executed for a claw matches
-- no signal of that claw; and it matches as before for every other claw.
pub cooldown_respected :
    (e : Engine) (t now : ℕ) (claw other : String) (rule : Rule) (sig : Signal)
    → 0 < rule.cooldown
    → now < t + rule.cooldown
    → str_eq claw other ≡ false
    → let e' = record_execution t claw rule.id e in
      (rule_matches e' now claw rule sig ≡ false)
      × (rule_matches e' now other rule sig ≡ rule_matches e now other rule sig)
unfolding rule_matches cooling
cooldown_respected e t now claw other rule sig pos early differs = ground (
  arith,
  last_exec-record_execution e t claw rule.id claw rule.id,
  last_exec-record_execution e t claw rule.id other rule.id,
  eq_refl claw,
  eq_refl rule.id,
)
