-- ===== src/Rules/Engine/Tests.antt =====
-- The engine with the built-in rules.
use k8s4claw.Base.{◌*◌, ◌≡◌, refl, true, false, some, [], ◌∷◌, arith, All, lookup}
use k8s4claw.Rules.Types.{Signal, Rule, severity_rank, high, medium, minute, restart_pod}
use k8s4claw.Rules.Builtin.{default_rules}
use k8s4claw.Rules.Engine.{
  Engine, rule_matches, match_highest_priority, best_match, first_match, record_execution,
  last_exec,
}
use k8s4claw.Rules.Engine.Match.{Dominated, match_highest_priority_best}
use k8s4claw.Rules.Engine.Cooldown.{cooldown_respected}

abbrev crash : Signal
crash = record {
  type = "CrashLoop";
  severity = high;
  count = 6;
  message = "";
  source = "pod-status";
  raw = [];
}

abbrev cpu : Signal
cpu = record crash { type = "HighCPU"; severity = medium; count = 1 }

abbrev evicted : Signal
evicted = record crash { type = "Evicted" }

abbrev crash_rule : Rule
crash_rule = record {
  id = "crashloop-restart-pod";
  match = record { signal_type = "CrashLoop"; min_severity = high; min_count = 5 };
  action = record { type = restart_pod; params = ("strategy", "delete-oldest") ∷ [] };
  cooldown = 10 * minute;
}

abbrev engine : Engine
engine = record { rules = default_rules; cooldowns = [] }

picks_crash : match_highest_priority engine 0 "a" (cpu ∷ crash ∷ []) ≡ some (crash, crash_rule)
unfolding match_highest_priority best_match first_match rule_matches severity_rank last_exec lookup
picks_crash = refl

match_highest_priority_best_example :
    (rule_matches engine 0 "a" crash_rule crash ≡ true)
    × All (Dominated engine 0 "a" (severity_rank high)) (cpu ∷ crash ∷ [])
match_highest_priority_best_example =
    match_highest_priority_best engine 0 "a" (cpu ∷ crash ∷ []) crash crash_rule picks_crash

cooldown_respected_example :
    let e' = record_execution 5 "a" "crashloop-restart-pod" engine in
    (rule_matches e' 7 "a" crash_rule crash ≡ false)
    × (rule_matches e' 7 "b" crash_rule crash ≡ rule_matches engine 7 "b" crash_rule crash)
cooldown_respected_example =
    cooldown_respected engine 5 7 "a" "b" crash_rule crash (omega arith) (omega arith) refl
