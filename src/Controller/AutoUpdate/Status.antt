-- ===== src/Controller/AutoUpdate/Status.antt =====
-- The state of the automatic update and the changes that an attempt makes to it: the types of
-- api/v1alpha1/common_types.go and the functions at the end of
-- internal/controller/autoupdate_controller.go.
use k8s4claw.Base.{
  ℕ, zero, suc, ◌+◌, ◌-◌, ◌^◌, String, Bool, false, ◌||◌, Option, none, some, List, [], ◌∷◌, ◌++◌,
  ℤ, pos, negsuc, if◌then◌else◌, ltb, leb, ◌==◌, length, drop, Dict, after_last,
}
use k8s4claw.Registry.Resolver.{is_failed}

pub data VersionHistoryStatus : Type 0 where
  healthy : VersionHistoryStatus
  rolled_back : VersionHistoryStatus

pub record VersionHistoryEntry : Type 0 where
  pub version : String
  pub applied_at : ℕ
  pub outcome : VersionHistoryStatus

-- `AutoUpdateSpec`; an empty text stands for the default.
pub record AutoUpdateSpec : Type 0 where
  pub enabled : Bool
  pub version_constraint : String
  pub schedule : String
  pub health_timeout : String
  pub max_rollbacks : ℤ

pub record AutoUpdateStatus : Type 0 where
  pub current_version : String
  pub available_version : String
  pub last_check : Option ℕ
  pub last_update : Option ℕ
  pub rollback_count : ℤ
  pub failed_versions : List String
  pub circuit_open : Bool
  pub version_history : List VersionHistoryEntry

abbrev pub empty_status : AutoUpdateStatus
empty_status = record {
  current_version = "";
  available_version = "";
  last_check = none;
  last_update = none;
  rollback_count = pos 0;
  failed_versions = [];
  circuit_open = false;
  version_history = [];
}

pub record Condition : Type 0 where
  pub kind : String
  pub status : Bool
  pub reason : String
  pub message : String
  pub observed_generation : ℕ

-- What the reconciler reads and writes of a `Claw`.
pub record Claw : Type 0 where
  pub runtime : String
  pub generation : ℕ
  pub annotations : Dict String
  pub spec : Option AutoUpdateSpec
  pub status : Option AutoUpdateStatus
  pub conditions : List Condition

abbrev pub max_version_history : ℕ
max_version_history = 50

abbrev pub default_max_rollbacks : ℕ
default_max_rollbacks = 3

-- `n + 1` on a signed integer of 64 bits.
unfoldable pub increment : ℤ → ℤ
increment (pos n) = if (n + 1) == 2 ^ 63 then negsuc (2 ^ 63 - 1) else pos (n + 1)
increment (negsuc zero) = pos 0
increment (negsuc (suc n)) = negsuc n

-- `n ≤ i` for a natural number and a signed one.
unfoldable pub at_least : ℕ → ℤ → Bool
at_least n (pos i) = leb n i
at_least n (negsuc i) = false

-- `failed[len(failed)-max:]` of a history that is longer than the maximum.
unfoldable pub trim_version_history : List VersionHistoryEntry → List VersionHistoryEntry
trim_version_history history =
    if ltb max_version_history (length history)
    then drop (length history - max_version_history) history
    else history

unfoldable pub add_failed : String → List String → List String
add_failed v failed = if is_failed failed v then failed else failed ++ (v ∷ [])

unfoldable pub max_rollbacks_of : AutoUpdateSpec → ℕ
max_rollbacks_of spec = elim spec.max_rollbacks [
  | pos zero ↦ default_max_rollbacks
  | pos (suc n) ↦ suc n
  | negsuc n ↦ default_max_rollbacks
]

-- The status after a rollback, as `rollback` computes it before it writes.
unfoldable pub roll_back : ℕ → AutoUpdateSpec → AutoUpdateStatus → AutoUpdateStatus
unfolding increment at_least trim_version_history add_failed max_rollbacks_of
roll_back now spec s = record s {
  failed_versions = add_failed s.available_version s.failed_versions;
  rollback_count = increment s.rollback_count;
  version_history = trim_version_history (
      s.version_history
      ++ (record { version = s.available_version; applied_at = now; outcome = rolled_back } ∷ []));
  circuit_open = at_least (max_rollbacks_of spec) (increment s.rollback_count) || s.circuit_open;
}

-- The status after a health check that has passed.
unfoldable pub complete : ℕ → String → AutoUpdateStatus → AutoUpdateStatus
unfolding trim_version_history
complete now v s = record s {
  current_version = v;
  rollback_count = pos 0;
  circuit_open = false;
  version_history =
      trim_version_history
        (s.version_history ++ (record { version = v; applied_at = now; outcome = healthy } ∷ []));
}

-- The tag of an image reference, looked for behind the last slash.
unfoldable pub extract_version_from_image : String → String
extract_version_from_image image =
    let search : String = elim (after_last b'/' image) [ none ↦ image | some r ↦ r ] in
    elim (after_last b':' search) [ none ↦ "" | some v ↦ v ]

-- The fields of the local status, one by one, over those of the object that was read again.
unfoldable pub merge_auto_update_status : Claw → AutoUpdateStatus → Claw
merge_auto_update_status claw local =
    let s : AutoUpdateStatus = elim claw.status [ none ↦ empty_status | some s ↦ s ] in
    record claw {
      status = some (record s {
        current_version = local.current_version;
        available_version = local.available_version;
        last_check = local.last_check;
        last_update = local.last_update;
        rollback_count = local.rollback_count;
        circuit_open = local.circuit_open;
        failed_versions = local.failed_versions;
        version_history = local.version_history;
      });
    }
