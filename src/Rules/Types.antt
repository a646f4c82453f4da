-- ===== src/Rules/Types.antt =====
-- The data of the rule engine: internal/rules/engine.go, and the severities and triggers of
-- api/v1alpha1/common_types.go. Both of those are strings. A count of restarts and a cooldown are
-- never negative, so they are numbers; a duration is in nanoseconds.
use k8s4claw.Base.{ℕ, ◌*◌, String, Dict, str_eq, if◌then◌else◌}

abbrev pub Severity : Type 0
Severity = String

abbrev pub critical : Severity
critical = "Critical"

abbrev pub high : Severity
high = "High"

abbrev pub medium : Severity
medium = "Medium"

abbrev pub low : Severity
low = "Low"

unfoldable pub severity_rank : Severity → ℕ
severity_rank s =
    if str_eq s critical
    then 4
    else (if str_eq s high
        then 3
        else (if str_eq s medium then 2 else (if str_eq s low then 1 else 0)))

abbrev pub TriggerType : Type 0
TriggerType = String

pub record Signal : Type 0 where
  pub type : TriggerType
  pub severity : Severity
  pub count : ℕ
  pub message : String
  pub source : String
  pub raw : Dict String

abbrev pub ActionType : Type 0
ActionType = String

abbrev pub patch_resource : ActionType
patch_resource = "PatchResource"

abbrev pub restart_pod : ActionType
restart_pod = "RestartPod"

abbrev pub scale_replicas : ActionType
scale_replicas = "ScaleReplicas"

pub record ActionSpec : Type 0 where
  pub type : ActionType
  pub params : Dict String

pub record MatchCriteria : Type 0 where
  pub signal_type : TriggerType
  pub min_severity : Severity
  pub min_count : ℕ

pub record Rule : Type 0 where
  pub id : String
  pub match : MatchCriteria
  pub action : ActionSpec
  pub cooldown : ℕ

abbrev pub minute : ℕ
minute = 60 * 1_000_000_000
