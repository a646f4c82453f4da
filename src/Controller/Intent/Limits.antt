-- ===== src/Controller/Intent/Limits.antt =====
-- What an intent can change at most (internal/controller/claw_ops_intent_consumer.go).
use mathlib.Core.Option.{some_inj}
use k8s4claw.Base.{
  ◌≡◌, ◌⊎◌, inl, inr, refl, sym, ◌∙◌, ap, String, true, Option, none, some, List, ℤ, pos, leb_int,
  arith, Bool-cases, Option-cases, if◌then◌else◌, str_eq, eq_iff,
}
use k8s4claw.Controller.Intent.{
  current_intent_gen, clear_ops_intent_annotations, build_intent_patch, parse_replicas, bump,
  apply_intent_patch, empty_patch, commit, execute, execute_patch, consume_parsed,
  consume_and_execute_ops_intent, parse_ops_intent,
}
use k8s4claw.Controller.Intent.Types.{
  Codec, OpsIntent, Claw, IntentPatch, World, Effect, Parsed, nothing, intent, invalid,
}
use k8s4claw.Controller.Intent.Replay.{commit-claw}

module _ (k : Codec) where
  open k use {Quantity}

  -- A number of replicas that the operator accepts.
  abbrev pub Allowed : ℤ → Type 0
  Allowed n = (leb_int (pos 1) n ≡ true) × (leb_int n (pos 10) ≡ true)

  parse_replicas_lem : (i : OpsIntent) (n : ℤ) → parse_replicas k i ≡ some n → Allowed n
  unfolding parse_replicas
  parse_replicas_lem i n q = ground arith

  action-build_intent_patch :
      (i : OpsIntent) (patch : IntentPatch Quantity)
      → build_intent_patch k i ≡ some patch
      → patch.action ≡ i.action
  unfolding build_intent_patch
  action-build_intent_patch i patch q = ground arith

  build_scale :
      (i : OpsIntent)
      → i.action ≡ "scale-replicas"
      → build_intent_patch k i ≡ elim (parse_replicas k i) as (λ x. Option (IntentPatch Quantity)) [
        | none ↦ none
        | some n ↦ some (record (empty_patch k i.action) { replicas = n })
      ]
  unfolding build_intent_patch parse_replicas
  build_scale i a = rw (a, build_intent_patch) refl

  build_intent_patch_lem :
      (i : OpsIntent) (patch : IntentPatch Quantity)
      → build_intent_patch k i ≡ some patch
      → str_eq patch.action "scale-replicas" ≡ true
      → Allowed patch.replicas
  build_intent_patch_lem i patch q scale =
      let a : i.action ≡ "scale-replicas" =
        sym (action-build_intent_patch i patch q)
        ∙ (eq_iff patch.action "scale-replicas").0 scale in
      elim (Option-cases (parse_replicas k i)) [
        | inl bad ↦ let built = rw bad at (build_scale i a) in absurd cc
        | inr (n, good) ↦
            let built = rw good at (build_scale i a) in
            let same : n ≡ patch.replicas = ap (λ x. x.replicas) (some_inj.0 (sym built ∙ q)) in
            rw same at (parse_replicas_lem i n good)
      ]

  -- The number of replicas is what it was, or one that the operator accepts.
  abbrev pub Kept : Claw Quantity → Option ℤ → Type 0
  Kept claw after = (after ≡ claw.replicas) ⊎ ((n : ℤ) × (after ≡ some n) × Allowed n)

  apply_scale :
      (w : World Quantity) (claw : Claw Quantity) (patch : IntentPatch Quantity)
      → patch.action ≡ "scale-replicas"
      → (apply_intent_patch k w claw patch).claw.replicas ≡ some patch.replicas
  unfolding apply_intent_patch
  apply_scale w claw patch a = rw (a, apply_intent_patch) refl

  apply_intent_patch-Kept :
      (w : World Quantity) (claw : Claw Quantity) (patch : IntentPatch Quantity)
      → (str_eq patch.action "scale-replicas" ≡ true → Allowed patch.replicas)
      → Kept claw (apply_intent_patch k w claw patch).claw.replicas
  unfolding apply_intent_patch bump
  apply_intent_patch-Kept w claw patch ok =
      elim (Bool-cases (str_eq patch.action "scale-replicas")) [
        | inl scale ↦ inr (
          patch.replicas,
          apply_scale w claw patch ((eq_iff patch.action "scale-replicas").0 scale),
          ok scale,
        )
        | inr other ↦ inl (ground arith)
      ]

  replicas-clear :
      (claw : Claw Quantity) (n : ℤ)
      → (clear_ops_intent_annotations k claw n).replicas ≡ claw.replicas
  unfolding clear_ops_intent_annotations
  replicas-clear claw n = ground arith

  replicas-commit :
      (w : World Quantity) (es : List (Effect Quantity)) (reason : String) (claw : Claw Quantity)
      → (commit k w es reason claw).claw.replicas ≡ claw.replicas
  replicas-commit w es reason claw = ap (λ c. c.replicas) (commit-claw k w es reason claw)

  Kept-by :
      (claw : Claw Quantity)
      → {after before : Option ℤ} → after ≡ before
      → Kept claw before
      → Kept claw after
  Kept-by claw same h = rw same h

  execute_patch-Kept :
      (w : World Quantity) (claw : Claw Quantity) (i : OpsIntent)
      (built : Option (IntentPatch Quantity))
      → ((patch : IntentPatch Quantity)
          → built ≡ some patch
          → str_eq patch.action "scale-replicas" ≡ true
          → Allowed patch.replicas)
      → Kept claw (execute_patch k w claw i built).claw.replicas
  unfolding execute_patch commit
  execute_patch-Kept w claw i none ok = inl (replicas-clear claw i.generation)
  execute_patch-Kept w claw i (some patch) ok =
      Kept-by claw
        (replicas-commit w (apply_intent_patch k w claw patch).effects
            (if (apply_intent_patch k w claw patch).is_error
              then "OpsIntentFailed"
              else "OpsIntentExecuted")
            (clear_ops_intent_annotations k (apply_intent_patch k w claw patch).claw i.generation)
          ∙ replicas-clear (apply_intent_patch k w claw patch).claw i.generation)
        (apply_intent_patch-Kept w claw patch (ok patch refl))

  execute-Kept :
      (w : World Quantity) (claw : Claw Quantity) (i : OpsIntent)
      → Kept claw (execute k w claw i).claw.replicas
  unfolding execute
  execute-Kept w claw i =
      execute_patch-Kept w claw i (build_intent_patch k i) (build_intent_patch_lem i)

  consume_parsed-Kept :
      (w : World Quantity) (claw : Claw Quantity) (p : Parsed)
      → Kept claw (consume_parsed k w claw p).claw.replicas
  unfolding consume_parsed commit clear_ops_intent_annotations
  consume_parsed-Kept w claw nothing = inl refl
  consume_parsed-Kept w claw invalid = inl (replicas-clear claw (current_intent_gen k claw))
  consume_parsed-Kept w claw (intent i) = execute-Kept w claw i

  -- Whatever the annotation says, consuming it leaves the number of replicas as it was or sets it
  -- to a number from 1 to 10.
  consume_replicas_bounded :
      (w : World Quantity) (claw : Claw Quantity)
      → Kept claw (consume_and_execute_ops_intent k w claw).claw.replicas
  unfolding consume_and_execute_ops_intent
  consume_replicas_bounded w claw = consume_parsed-Kept w claw (parse_ops_intent k claw)
