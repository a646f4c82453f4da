-- ===== src/Webhook/AutoUpdate.antt =====
-- What admission gives to the automatic updates: internal/webhook/claw_validator.go and the reader of
-- the same section, internal/controller/autoupdate_controller.go.
use k8s4claw.Base.{
  ◌≡◌, refl, sym, ◌∙◌, ap, true, ◌⊎◌, inl, inr, some, is_some, [], pos, leb_int, str_eq, arith,
  Bool-cases, Option-cases, Bool, false, ◌*◌, ℤ, ◌&&◌,
}
use k8s4claw.Rules.Types.{minute}
use k8s4claw.Registry.Resolver.{Semver}
use k8s4claw.Controller.AutoUpdate.Status.{AutoUpdateSpec}
use k8s4claw.Controller.AutoUpdate.Cluster.{Platform}
use k8s4claw.Controller.AutoUpdate.Reconcile.{health_timeout_of}
use k8s4claw.Webhook.Types.{ClawSpec, Quantities}
use k8s4claw.Webhook.Runtimes.{Registry}
use k8s4claw.Webhook.Empty.{append-empty, error_if-not-empty, unread-empty}
use k8s4claw.Webhook.{
  is_timeout, validate_auto_update_spec, validate_auto_update, validate_create, validate_update,
  validate_credential_exclusivity, validate_pvc_sizes, validate_runtime_immutability,
}

both_true : (a b : Bool) → a && b ≡ true → (a ≡ true) × (b ≡ true)
both_true true b q = (refl, q)
both_true false b q = absurd (ground (arith, q))

module _ (sv : Semver) (pl : Platform) where
  abbrev pub IsUsable : AutoUpdateSpec → Type 0
  IsUsable au =
      ((str_eq au.version_constraint "" ≡ true)
        ⊎ (is_some (sv.new_constraint au.version_constraint) ≡ true))
      × ((str_eq au.schedule "" ≡ true) ⊎ (is_some (pl.parse_cron au.schedule) ≡ true))
      × (leb_int (pos (2 * minute)) (health_timeout_of pl au) ≡ true)
      × (leb_int (health_timeout_of pl au) (pos (30 * minute)) ≡ true)
      × (leb_int (pos 0) au.max_rollbacks ≡ true)

  timeout_between :
      (d : ℤ)
      → is_timeout (some d) ≡ true
      → (leb_int (pos (2 * minute)) d ≡ true) × (leb_int d (pos (30 * minute)) ≡ true)
  unfolding is_timeout
  timeout_between d q = both_true (leb_int (pos (2 * minute)) d) _ q

  timeout_usable :
      (au : AutoUpdateSpec)
      → (str_eq au.health_timeout "" ≡ true)
        ⊎ (is_timeout (pl.parse_duration au.health_timeout) ≡ true)
      → is_timeout (some (health_timeout_of pl au)) ≡ true
  unfolding health_timeout_of is_timeout
  timeout_usable au (inl empty) = rw (empty) refl
  timeout_usable au (inr good) = elim (Bool-cases (str_eq au.health_timeout "")) [
    | inl yes_eq ↦ rw (yes_eq) refl
    | inr no_eq ↦ elim (Option-cases (pl.parse_duration au.health_timeout)) [
      | inl missing ↦ absurd (ground (arith, missing, good))
      | inr (d, got) ↦ rw (no_eq, got) (sym (ap is_timeout got) ∙ good)
    ]
  ]

  auto_update-IsUsable :
      (au : AutoUpdateSpec) → validate_auto_update_spec sv pl au ≡ [] → IsUsable au
  unfolding validate_auto_update_spec
  auto_update-IsUsable au q =
      let parts = append-empty _ _ q in
      let later = append-empty _ _ parts.1 in
      let last = append-empty _ _ later.1 in
      let between = timeout_between _ (timeout_usable au (unread-empty _ _ _ last.0)) in
      (
        unread-empty _ _ _ parts.0,
        unread-empty _ _ _ later.0,
        between.0,
        between.1,
        error_if-not-empty _ _ last.1,
      )

  validate_auto_update-some :
      (spec : ClawSpec) (au : AutoUpdateSpec)
      → spec.auto_update ≡ some au
      → au.enabled ≡ true
      → validate_auto_update sv pl spec ≡ validate_auto_update_spec sv pl au
  unfolding validate_auto_update
  validate_auto_update-some spec au there on = rw (there, on) refl

module _ (q : Quantities) (sv : Semver) (pl : Platform) (registry : Registry q) where
  section_accepted :
      (old spec : ClawSpec)
      → (validate_create q sv pl registry spec ≡ [])
        ⊎ (validate_update q sv pl registry old spec ≡ [])
      → validate_auto_update sv pl spec ≡ []
  unfolding validate_create validate_update
  section_accepted old spec (inl r) =
      let rest = append-empty _ _ (append-empty _ _ r).1 in (append-empty _ _ rest.1).0
  section_accepted old spec (inr r) =
      let rest = append-empty (validate_runtime_immutability old spec) _ r in
      let uncredited = append-empty (validate_credential_exclusivity spec) _ rest.1 in
      let unsized = append-empty (validate_pvc_sizes q spec) _ uncredited.1 in
      (append-empty (validate_auto_update sv pl spec) _ unsized.1).0

  -- If admission accepts a claw, on creation or as an update of `old`, and its section for automatic
  -- updates is enabled, the updates' controller can use the section: the constraint and the
  -- schedule are empty or read, the timeout that the controller takes, its default included, is
  -- between 2 and 30 minutes, and the number of rollbacks is not negative.
  pub accepted-IsUsable :
      (old spec : ClawSpec) (au : AutoUpdateSpec)
      → spec.auto_update ≡ some au
      → au.enabled ≡ true
      → (validate_create q sv pl registry spec ≡ [])
        ⊎ (validate_update q sv pl registry old spec ≡ [])
      → IsUsable sv pl au
  accepted-IsUsable old spec au there on accepted =
      auto_update-IsUsable sv pl au (
        sym (validate_auto_update-some sv pl spec au there on) ∙ section_accepted old spec accepted)
