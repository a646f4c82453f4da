-- ===== src/Rules/Builtin.antt =====
-- The built-in rules: internal/rules/builtin.go.
use k8s4claw.Base.{◌*◌, List, [], ◌∷◌}
use k8s4claw.Rules.Types.{Rule, high, medium, patch_resource, restart_pod, minute}

abbrev pub default_rules : List Rule
default_rules =
    record {
      id = "oom-bump-memory";
      match = record { signal_type = "OOMKilled"; min_severity = high; min_count = 2 };
      action = record {
        type = patch_resource;
        params = ("field", "memory-limit") ∷ ("strategy", "multiply-1.5") ∷ ("max", "4Gi") ∷ [];
      };
      cooldown = 30 * minute;
    }
    ∷ record {
      id = "crashloop-restart-pod";
      match = record { signal_type = "CrashLoop"; min_severity = high; min_count = 5 };
      action = record { type = restart_pod; params = ("strategy", "delete-oldest") ∷ [] };
      cooldown = 10 * minute;
    }
    ∷ record {
      id = "high-cpu-bump-request";
      match = record { signal_type = "HighCPU"; min_severity = medium; min_count = 1 };
      action = record {
        type = patch_resource;
        params = ("field", "cpu-request") ∷ ("strategy", "multiply-1.5") ∷ ("max", "4") ∷ [];
      };
      cooldown = 30 * minute;
    }
    ∷ []
