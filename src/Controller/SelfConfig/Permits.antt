-- ===== src/Controller/SelfConfig/Permits.antt =====
-- What an accepted self-configuration may ask for and what it changes
-- (internal/controller/selfconfig_controller.go).
use k8s4claw.Base.{◌≡◌, ◌≤◌, String, Bool, true, false, ◌⊎◌, some, List, length}
use k8s4claw.Controller.AutoUpdate.Cluster.{found}
use k8s4claw.Controller.SelfConfig.Types.{
  ClawSelfConfigSpec, ClawSelfConfig, SelfConfigureSpec, Claw, Cluster, Call, delete_self_config,
  update_self_config, write_claw, write_status, event,
}
use k8s4claw.Controller.SelfConfig.{is_allowed, is_any, apply_changes}

-- A category is allowed if the spec asks for something in it.
abbrev pub Asks : String → List String → Bool → Bool → Type 0
Asks action allowed a b = ((a ≡ false) × (b ≡ false)) ⊎ (is_allowed action allowed ≡ true)

abbrev pub Permits : List String → ClawSelfConfigSpec → Type 0
Permits allowed spec =
    Asks "skills" allowed (is_any spec.add_skills) (is_any spec.remove_skills)
    × Asks "config" allowed false (is_any spec.config_patch)
    × Asks "workspaceFiles" allowed (is_any spec.add_workspace_files)
        (is_any spec.remove_workspace_files)
    × Asks "envVars" allowed (is_any spec.add_env_vars) (is_any spec.remove_env_vars)
    × (length spec.add_skills ≤ 10)
    × (length spec.remove_skills ≤ 10)
    × (length spec.add_workspace_files ≤ 10)
    × (length spec.remove_workspace_files ≤ 10)
    × (length spec.add_env_vars ≤ 10)
    × (length spec.remove_env_vars ≤ 10)

module _ {Rest : Type 0} where
  -- The claw was found with its self-configuration enabled, which permits what the object asks for;
  -- the claw that is written differs from it in the annotations at most.
  abbrev pub Justified : Cluster Rest → Claw Rest → Type 0
  Justified w c =
      (sc : ClawSelfConfig) × (claw : Claw Rest) × (s : SelfConfigureSpec) × (w.self_config
        ≡ found sc)
      × (w.claw ≡ found claw)
      × (claw.self_configure ≡ some s)
      × (s.enabled ≡ true)
      × Permits s.allowed_actions sc.spec
      × (c ≡ apply_changes sc claw)
      × (c.rest ≡ claw.rest)
      × (c.self_configure ≡ claw.self_configure)

  abbrev pub IsJustified : Cluster Rest → Call Rest → Type 0
  IsJustified w (write_claw c) = Justified w c
  IsJustified w (delete_self_config sc) = Unit
  IsJustified w (update_self_config sc) = Unit
  IsJustified w (write_status sc) = Unit
  IsJustified w (event r) = Unit
