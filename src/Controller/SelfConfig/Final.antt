-- ===== src/Controller/SelfConfig/Final.antt =====
-- The statuses that the reconciler of self-configurations writes, and what follows from reading one
-- back (internal/controller/selfconfig_controller.go).
use mathlib.Core.Path.{subst}
use k8s4claw.Base.{
  ◌≡◌, refl, sym, ℕ, ◌+◌, ◌≤◌, String, Bool, true, false, inl, inr, Option, none, some, List, [],
  ◌∷◌, ◌++◌, All, leb, arith, Bool-cases,
}
use k8s4claw.Controller.AutoUpdate.Cluster.{Found, found, not_found, get_failed}
use k8s4claw.Controller.SelfConfig.Types.{
  ClawSelfConfigPhase, unset, pending, applied, phase_failed, denied, ClawSelfConfig,
  SelfConfigureSpec, Claw, Cluster, Call, delete_self_config, update_self_config, write_claw,
  write_status, event,
}
use k8s4claw.Controller.SelfConfig.{
  validate_actions, deny, mark, apply, validate, self_config_ttl, configure, with_claw, expire,
  reconcile_phase, reconcile_found, reconcile,
}

-- Denied, failed, or applied at a known time.
abbrev pub IsFinal : ClawSelfConfigPhase → Option ℕ → Type 0
IsFinal denied at = Unit
IsFinal phase_failed at = Unit
IsFinal applied (some at) = Unit
IsFinal applied none = ⊥
IsFinal unset at = ⊥
IsFinal pending at = ⊥

module _ {Rest : Type 0} where
  abbrev pub WritesFinal : Call Rest → Type 0
  WritesFinal (write_status sc) = IsFinal sc.phase sc.applied_at
  WritesFinal (write_claw c) = Unit
  WritesFinal (delete_self_config sc) = Unit
  WritesFinal (update_self_config sc) = Unit
  WritesFinal (event r) = Unit

  -- The object is deleted, and its age is the limit at least.
  abbrev pub OnlyExpires : ℕ → ClawSelfConfig → Call Rest → Type 0
  OnlyExpires now sc (delete_self_config gone) =
      (at : ℕ) × (gone ≡ sc) × (sc.applied_at ≡ some at) × (at + self_config_ttl ≤ now)
  OnlyExpires now sc (write_status s) = ⊥
  OnlyExpires now sc (write_claw c) = ⊥
  OnlyExpires now sc (update_self_config s) = ⊥
  OnlyExpires now sc (event r) = ⊥

  deny-WritesFinal :
      (w : Cluster Rest) (sc : ClawSelfConfig) (reason : String)
      → All WritesFinal (deny w sc reason).0
  unfolding deny
  deny-WritesFinal w sc reason = elim (Bool-cases w.update_status) [
    | inl ok ↦ rw (ok) (tt, (tt, tt))
    | inr bad ↦ rw (bad) (tt, tt)
  ]

  mark-WritesFinal :
      (w : Cluster Rest) (b : Bool) (sc : ClawSelfConfig) → All WritesFinal (mark w b sc).0
  unfolding mark
  mark-WritesFinal w false sc = (tt, tt)
  mark-WritesFinal w true sc = elim (Bool-cases w.update_status) [
    | inl ok ↦ rw (ok) (tt, (tt, tt))
    | inr bad ↦ rw (bad) (tt, tt)
  ]

  apply-WritesFinal :
      (w : Cluster Rest) (sc : ClawSelfConfig) (claw : Claw Rest)
      → All WritesFinal (apply w sc claw).0
  unfolding apply mark
  apply-WritesFinal w sc claw = elim (Bool-cases w.set_owner_reference) [
    | inr unowned ↦ rw (unowned) tt
    | inl owned ↦ elim (Bool-cases w.update) [
      | inr stale ↦ rw (owned, stale) (tt, tt)
      | inl fresh ↦
          rw (owned, fresh)
            (tt, (tt, mark-WritesFinal w w.update_claw (record sc { owner = some claw.name })))
    ]
  ]

  validate-WritesFinal :
      (w : Cluster Rest) (sc : ClawSelfConfig) (claw : Claw Rest) (error : Option String)
      → All WritesFinal (validate w sc claw error).0
  unfolding validate
  validate-WritesFinal w sc claw (some error) = deny-WritesFinal w sc error
  validate-WritesFinal w sc claw none = apply-WritesFinal w sc claw

  configure-WritesFinal :
      (w : Cluster Rest) (sc : ClawSelfConfig) (claw : Claw Rest) (o : Option SelfConfigureSpec)
      → All WritesFinal (configure w sc claw o).0
  unfolding configure
  configure-WritesFinal w sc claw none = deny-WritesFinal w sc _
  configure-WritesFinal w sc claw (some s) = elim (Bool-cases s.enabled) [
    | inr off ↦ rw (off) (deny-WritesFinal w sc _)
    | inl on ↦ rw (on) (validate-WritesFinal w sc claw (validate_actions sc.spec s.allowed_actions))
  ]

  with_claw-WritesFinal :
      (w : Cluster Rest) (sc : ClawSelfConfig) (got : Found (Claw Rest))
      → All WritesFinal (with_claw w sc got).0
  unfolding with_claw
  with_claw-WritesFinal w sc (found claw) = configure-WritesFinal w sc claw claw.self_configure
  with_claw-WritesFinal w sc not_found = deny-WritesFinal w sc _
  with_claw-WritesFinal w sc get_failed = tt

  reconcile_phase-WritesFinal :
      (w : Cluster Rest) (sc : ClawSelfConfig) (phase : ClawSelfConfigPhase) (at : Option ℕ)
      → All WritesFinal (reconcile_phase w sc phase at).0
  unfolding reconcile_phase expire
  reconcile_phase-WritesFinal w sc applied (some at) =
      elim (Bool-cases (leb (at + self_config_ttl) w.now)) [
        | inl old ↦ rw (old) (tt, tt)
        | inr young ↦ rw (young) tt
      ]
  reconcile_phase-WritesFinal w sc applied none = with_claw-WritesFinal w sc w.claw
  reconcile_phase-WritesFinal w sc denied at = tt
  reconcile_phase-WritesFinal w sc phase_failed at = tt
  reconcile_phase-WritesFinal w sc unset at = with_claw-WritesFinal w sc w.claw
  reconcile_phase-WritesFinal w sc pending at = with_claw-WritesFinal w sc w.claw

  reconcile_found-WritesFinal :
      (w : Cluster Rest) (got : Found ClawSelfConfig) → All WritesFinal (reconcile_found w got).0
  unfolding reconcile_found
  reconcile_found-WritesFinal w not_found = tt
  reconcile_found-WritesFinal w get_failed = tt
  reconcile_found-WritesFinal w (found sc) = reconcile_phase-WritesFinal w sc sc.phase sc.applied_at

  reconcile_phase-OnlyExpires :
      (w : Cluster Rest) (sc : ClawSelfConfig) (phase : ClawSelfConfigPhase) (at : Option ℕ)
      → sc.applied_at ≡ at
      → IsFinal phase at
      → All (OnlyExpires w.now sc) (reconcile_phase w sc phase at).0
  unfolding reconcile_phase expire
  reconcile_phase-OnlyExpires w sc denied at q f = tt
  reconcile_phase-OnlyExpires w sc phase_failed at q f = tt
  reconcile_phase-OnlyExpires w sc applied (some at) q f =
      elim (Bool-cases (leb (at + self_config_ttl) w.now)) [
        | inl old ↦ rw (old) ((at, refl, q, ground (arith, old)), tt)
        | inr young ↦ rw (young) tt
      ]
  reconcile_phase-OnlyExpires w sc applied none q f = absurd f
  reconcile_phase-OnlyExpires w sc unset at q f = absurd f
  reconcile_phase-OnlyExpires w sc pending at q f = absurd f

  All-between :
      (before after : List (Call Rest)) (c : Call Rest)
      → All WritesFinal (before ++ (c ∷ after))
      → WritesFinal c
  All-between [] after c (h, hs) = h
  All-between (x ∷ before) after c (h, hs) = All-between before after c hs

  found_once :
      (w' : Cluster Rest) (got : Found ClawSelfConfig) (sc : ClawSelfConfig)
      → got ≡ found sc
      → IsFinal sc.phase sc.applied_at
      → All (OnlyExpires w'.now sc) (reconcile_found w' got).0
  unfolding reconcile_found
  found_once w' got sc q f =
      subst (λ g. All (OnlyExpires w'.now sc) (reconcile_found w' g).0) (sym q)
        (reconcile_phase-OnlyExpires w' sc sc.phase sc.applied_at refl f)

  -- A self-configuration is decided once. Let a reconciliation write a status, and let a later one,
  -- at any time and with any answers, read the object as it was written. Then the later one does
  -- nothing but delete the object, and it does that only if the object was applied at least one
  -- hour before.
  pub written_once :
      (w w' : Cluster Rest) (sc : ClawSelfConfig) (before after : List (Call Rest))
      → (reconcile w).0 ≡ before ++ (write_status sc ∷ after)
      → w'.self_config ≡ found sc
      → All (OnlyExpires w'.now sc) (reconcile w').0
  unfolding reconcile
  written_once w w' sc before after p q = found_once w' w'.self_config sc q (
      All-between before after (write_status sc)
        (subst (All WritesFinal) p (reconcile_found-WritesFinal w w.self_config)))
