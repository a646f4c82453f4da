-- ===== src/Webhook/Updates.antt =====
-- Sequences of updates that admission accepts: internal/webhook/claw_validator.go.
use k8s4claw.Base.{◌≡◌, refl, sym, ◌∙◌, none, some, [], ◌∷◌, str_eq, eq_iff, arith}
use k8s4claw.Registry.Resolver.{Semver}
use k8s4claw.Controller.AutoUpdate.Cluster.{Platform}
use k8s4claw.Webhook.Types.{ClawSpec, required, Quantities}
use k8s4claw.Webhook.Runtimes.{
  Registry, get, open_claw_adapter, has_credentials, validate_persistence_update,
}
use k8s4claw.Webhook.Empty.{append-empty, empty-append, error_if-not-empty}
use k8s4claw.Webhook.{
  validate_auto_update, validate_create, validate_update, validate_credential_exclusivity,
  validate_pvc_sizes, validate_runtime, validate_runtime_update, validate_runtime_immutability,
}

abbrev pub without_credentials : ClawSpec → ClawSpec
without_credentials spec = record spec { credentials = none }

module _ (q : Quantities) (sv : Semver) (pl : Platform) (registry : Registry q) where
  -- The specs that a claw of a spec can get by accepted updates.
  pub data Updates (first : ClawSpec) : ClawSpec → Type 0 where
    created : Updates first first
    updated :
        (old new : ClawSpec)
        → Updates first old
        → validate_update q sv pl registry old new ≡ []
        → Updates first new

  update_keeps_runtime :
      (old new : ClawSpec)
      → validate_update q sv pl registry old new ≡ []
      → new.runtime ≡ old.runtime
  unfolding validate_update validate_runtime_immutability
  update_keeps_runtime old new r = sym (
      (eq_iff old.runtime new.runtime).0 (
        error_if-not-empty (str_eq old.runtime new.runtime) _
          (append-empty (validate_runtime_immutability old new) _ r).0))

  -- However many updates are accepted, a claw keeps the runtime it was created with.
  pub runtime_kept : (first spec : ClawSpec) → Updates first spec → spec.runtime ≡ first.runtime
  runtime_kept first _ created = refl
  runtime_kept first _ (updated old new us r) =
      update_keeps_runtime old new r ∙ runtime_kept first old us

  bare_errors :
      (spec : ClawSpec)
      → get q spec.runtime registry ≡ some (open_claw_adapter q)
      → validate_runtime q sv pl registry (without_credentials spec)
        ≡ record { kind = required; path = "spec.credentials" } ∷ []
  unfolding validate_runtime has_credentials
  bare_errors spec known = rw (validate_runtime, known) refl

  bare_refused :
      (spec : ClawSpec)
      → get q spec.runtime registry ≡ some (open_claw_adapter q)
      → ¬ (validate_create q sv pl registry (without_credentials spec) ≡ [])
  unfolding validate_create
  bare_refused spec known r =
      let bare = without_credentials spec in
      let rest = append-empty (validate_credential_exclusivity bare) _ r in
      let unsized = append-empty (validate_pvc_sizes q bare) _ rest.1 in
      let last = append-empty (validate_auto_update sv pl bare) _ unsized.1 in
      let both = sym (bare_errors spec known) ∙ last.1 in absurd (ground (arith, both))

  bare_updates :
      (spec : ClawSpec)
      → get q spec.runtime registry ≡ some (open_claw_adapter q)
      → validate_runtime_update q sv pl registry spec (without_credentials spec)
        ≡ validate_runtime_update q sv pl registry spec spec
  unfolding validate_runtime_update validate_persistence_update
  bare_updates spec known = rw (validate_runtime_update, known) refl

  -- What creation demands is not demanded of an update. Let a claw's runtime have the adapter of
  -- OpenClaw, and let the update that changes nothing be accepted. Then the update that removes the
  -- credentials is accepted as well, though a claw of the resulting spec cannot be created.
  pub credentials_droppable :
      (spec : ClawSpec)
      → get q spec.runtime registry ≡ some (open_claw_adapter q)
      → validate_update q sv pl registry spec spec ≡ []
      → (validate_update q sv pl registry spec (without_credentials spec) ≡ [])
        × (¬ (validate_create q sv pl registry (without_credentials spec) ≡ []))
  unfolding validate_update validate_credential_exclusivity validate_pvc_sizes validate_auto_update
      validate_runtime_immutability
  credentials_droppable spec known same =
      let immutable = append-empty (validate_runtime_immutability spec spec) _ same in
      let rest = append-empty (validate_credential_exclusivity spec) _ immutable.1 in
      let sized = append-empty (validate_pvc_sizes q spec) _ rest.1 in
      let timed = append-empty (validate_auto_update sv pl spec) _ sized.1 in
      (
        empty-append (validate_runtime_immutability spec (without_credentials spec)) _ immutable.0 (
            empty-append (validate_pvc_sizes q spec) _ sized.0 (
              empty-append (validate_auto_update sv pl spec) _ timed.0
                (bare_updates spec known ∙ timed.1))),
        bare_refused spec known,
      )
