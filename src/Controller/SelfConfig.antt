-- ===== src/Controller/SelfConfig.antt =====
-- The reconciler of self-configurations: internal/controller/selfconfig_controller.go. A text of an
-- error or a status is kept without the name and the cause that the code puts into it.
pub mod Types
pub mod Permits
pub mod Final
mod Tests
use k8s4claw.Base.{
  ℕ, zero, suc, ◌+◌, ◌-◌, ◌*◌, String, Bool, true, false, not, ◌&&◌, ◌||◌, Option, none, some, List,
  [], ◌∷◌, length, if◌then◌else◌, ltb, leb, str_eq, Dict, insert,
}
use k8s4claw.Rules.Types.{minute}
use k8s4claw.Controller.AutoUpdate.Cluster.{
  Found, found, not_found, get_failed, Result, done, requeue_after, failed,
}
use k8s4claw.Controller.SelfConfig.Types.{
  ClawSelfConfigPhase, unset, pending, applied, phase_failed, denied, ClawSelfConfigSpec,
  ClawSelfConfig, SelfConfigureSpec, Claw, Cluster, Call, delete_self_config, update_self_config,
  write_claw, write_status, event,
}

abbrev pub self_config_ttl : ℕ
self_config_ttl = 60 * minute

abbrev pub last_self_config : String
last_self_config = "claw.prismer.ai/last-self-config"

unfoldable pub is_allowed : String → List String → Bool
is_allowed action [] = false
is_allowed action (a ∷ rest) = str_eq a action || is_allowed action rest

abbrev pub is_any {ℓ} : {A : Type ℓ} → List A → Bool
is_any xs = ltb 0 (length xs)

-- The text of the first test that fails.
unfoldable pub first_error : List (Bool × String) → Option String
first_error [] = none
first_error ((wrong, text) ∷ rest) = if wrong then some text else first_error rest

unfoldable pub validate_actions : ClawSelfConfigSpec → List String → Option String
validate_actions spec allowed = first_error (
    (
      (is_any spec.add_skills || is_any spec.remove_skills) && not (is_allowed "skills" allowed),
      "action 'skills' is not in allowedActions",
    )
    ∷ (
      is_any spec.config_patch && not (is_allowed "config" allowed),
      "action 'config' is not in allowedActions",
    )
    ∷ (
      (is_any spec.add_workspace_files || is_any spec.remove_workspace_files)
          && not (is_allowed "workspaceFiles" allowed),
      "action 'workspaceFiles' is not in allowedActions",
    )
    ∷ (
      (is_any spec.add_env_vars || is_any spec.remove_env_vars)
          && not (is_allowed "envVars" allowed),
      "action 'envVars' is not in allowedActions",
    )
    ∷ (ltb 10 (length spec.add_skills), "addSkills exceeds max 10 items")
    ∷ (ltb 10 (length spec.remove_skills), "removeSkills exceeds max 10 items")
    ∷ (ltb 10 (length spec.add_workspace_files), "addWorkspaceFiles exceeds max 10 items")
    ∷ (ltb 10 (length spec.remove_workspace_files), "removeWorkspaceFiles exceeds max 10 items")
    ∷ (ltb 10 (length spec.add_env_vars), "addEnvVars exceeds max 10 items")
    ∷ (ltb 10 (length spec.remove_env_vars), "removeEnvVars exceeds max 10 items")
    ∷ [])

module _ {Rest : Type 0} where
  unfoldable pub apply_changes : ClawSelfConfig → Claw Rest → Claw Rest
  apply_changes sc claw = record claw {
    annotations = insert last_self_config sc.name claw.annotations;
  }

  unfoldable pub deny : Cluster Rest → ClawSelfConfig → String → List (Call Rest) × Result
  deny w sc reason = (
    write_status (record sc { phase = denied; message = reason })
        ∷ (if w.update_status then event "SelfConfigDenied" ∷ [] else []),
    if w.update_status then done else failed "failed to update denied status",
  )

  -- The status after the changes, that were written or not.
  unfoldable pub mark : Cluster Rest → Bool → ClawSelfConfig → List (Call Rest) × Result
  mark w false sc = (
    write_status (record sc { phase = phase_failed; message = "failed to update Claw" }) ∷ [],
    failed "failed to apply self-config",
  )
  mark w true sc = (
    write_status (record sc {
      phase = applied;
      message = "configuration applied successfully";
      applied_at = some w.now;
    })
        ∷ (if w.update_status then event "SelfConfigApplied" ∷ [] else []),
    if w.update_status then requeue_after self_config_ttl else failed "failed to update status",
  )

  unfoldable pub apply : Cluster Rest → ClawSelfConfig → Claw Rest → List (Call Rest) × Result
  apply w sc claw =
      let owned = record sc { owner = some claw.name } in
      let marked = mark w w.update_claw owned in
      if w.set_owner_reference
      then (if w.update
          then (
            update_self_config owned ∷ write_claw (apply_changes owned claw) ∷ marked.0,
            marked.1,
          )
          else (update_self_config owned ∷ [], failed "failed to update ownerReference"))
      else ([], failed "failed to set owner reference")

  unfoldable pub validate :
      Cluster Rest → ClawSelfConfig → Claw Rest → Option String → List (Call Rest) × Result
  validate w sc claw (some error) = deny w sc error
  validate w sc claw none = apply w sc claw

  unfoldable pub configure :
      Cluster Rest
      → ClawSelfConfig
      → Claw Rest
      → Option SelfConfigureSpec
      → List (Call Rest) × Result
  configure w sc claw none = deny w sc "self-configuration is not enabled on target Claw"
  configure w sc claw (some s) =
      if s.enabled
      then validate w sc claw (validate_actions sc.spec s.allowed_actions)
      else deny w sc "self-configuration is not enabled on target Claw"

  unfoldable pub with_claw :
      Cluster Rest → ClawSelfConfig → Found (Claw Rest) → List (Call Rest) × Result
  with_claw w sc (found claw) = configure w sc claw claw.self_configure
  with_claw w sc not_found = deny w sc "target Claw not found"
  with_claw w sc get_failed = ([], failed "failed to get target Claw")

  -- An applied object is deleted once it is as old as the limit.
  unfoldable pub expire : Cluster Rest → ClawSelfConfig → ℕ → List (Call Rest) × Result
  expire w sc at =
      if leb (at + self_config_ttl) w.now
      then (
        delete_self_config sc ∷ [],
        if w.delete then done else failed "failed to delete expired SelfConfig",
      )
      else ([], requeue_after ((at + self_config_ttl) - w.now))

  unfoldable pub reconcile_phase :
      Cluster Rest → ClawSelfConfig → ClawSelfConfigPhase → Option ℕ → List (Call Rest) × Result
  reconcile_phase w sc applied (some at) = expire w sc at
  reconcile_phase w sc applied none = with_claw w sc w.claw
  reconcile_phase w sc denied at = ([], done)
  reconcile_phase w sc phase_failed at = ([], done)
  reconcile_phase w sc unset at = with_claw w sc w.claw
  reconcile_phase w sc pending at = with_claw w sc w.claw

  unfoldable pub reconcile_found : Cluster Rest → Found ClawSelfConfig → List (Call Rest) × Result
  reconcile_found w not_found = ([], done)
  reconcile_found w get_failed = ([], failed "failed to get ClawSelfConfig")
  reconcile_found w (found sc) = reconcile_phase w sc sc.phase sc.applied_at

  unfoldable pub reconcile : Cluster Rest → List (Call Rest) × Result
  reconcile w = reconcile_found w w.self_config
