-- ===== src/Controller/Intent/Replay.antt =====
-- That no intent runs twice: the generation counter of
-- internal/controller/claw_ops_intent_consumer.go.
use k8s4claw.Base.{
  ◌≡◌, inl, inr, refl, sym, ◌∙◌, ap, ap₂, String, true, false, none, some, List, [], ◌∷◌, ℤ, pos,
  negsuc, leb_int, arith, Bool-cases, Option-cases, if◌then◌else◌, str_eq, lookup, insert, delete,
  lookup-insert, lookup-delete,
}
use k8s4claw.Controller.Intent.{
  validate_intent, current_intent_gen, guard, parse_ops_intent, clear_ops_intent_annotations,
  build_intent_patch, bump, apply_intent_patch, commit, execute, execute_patch, consume_parsed,
  consume_and_execute_ops_intent,
}
use k8s4claw.Controller.Intent.Types.{
  Codec, OpsIntent, Claw, IntentPatch, World, Effect, nothing, intent, ops_intent, ops_intent_gen,
  restarted_at,
}

leb_int_refl : (i : ℤ) → leb_int i i ≡ true
leb_int_refl (pos n) = ground arith
leb_int_refl (negsuc n) = ground arith

leb_int_total : (i j : ℤ) → leb_int i j ≡ false → leb_int j i ≡ true
leb_int_total (pos m) (pos n) h = ground arith
leb_int_total (pos m) (negsuc n) h = refl
leb_int_total (negsuc m) (pos n) h = absurd cc
leb_int_total (negsuc m) (negsuc n) h = ground arith

leb_int_trans : (i j l : ℤ) → leb_int i j ≡ true → leb_int j l ≡ true → leb_int i l ≡ true
leb_int_trans i j l h h' = ground arith

module _ (k : Codec) where
  open k use {Quantity, parse_int, format_int}

  current_intent_gen-delete :
      (claw : Claw Quantity)
      → current_intent_gen k (record claw { annotations = delete ops_intent claw.annotations })
        ≡ current_intent_gen k claw
  unfolding current_intent_gen
  current_intent_gen-delete claw =
      rw (lookup-delete ops_intent ops_intent_gen claw.annotations, current_intent_gen) refl

  current_intent_gen-insert :
      (claw : Claw Quantity) (n : ℤ)
      → parse_int (format_int n) ≡ some n
      → current_intent_gen k (record claw {
        annotations = insert ops_intent_gen (format_int n) (delete ops_intent claw.annotations);
      })
        ≡ n
  unfolding current_intent_gen
  current_intent_gen-insert claw n back =
      rw
        (
          lookup-insert ops_intent_gen ops_intent_gen (format_int n)
              (delete ops_intent claw.annotations),
          back,
          current_intent_gen,
        )
        refl

  clear_old :
      (claw : Claw Quantity) (n : ℤ)
      → leb_int n (current_intent_gen k claw) ≡ true
      → clear_ops_intent_annotations k claw n
        ≡ record claw { annotations = delete ops_intent claw.annotations }
  unfolding clear_ops_intent_annotations
  clear_old claw n old = rw (current_intent_gen-delete claw, old, clear_ops_intent_annotations) refl

  clear_new :
      (claw : Claw Quantity) (n : ℤ)
      → leb_int n (current_intent_gen k claw) ≡ false
      → clear_ops_intent_annotations k claw n ≡ record claw {
        annotations = insert ops_intent_gen (format_int n) (delete ops_intent claw.annotations);
      }
  unfolding clear_ops_intent_annotations
  clear_new claw n new = rw (current_intent_gen-delete claw, new, clear_ops_intent_annotations) refl

  -- Clearing takes the intent away and leaves a counter that is neither below what it was nor
  -- below the generation that was processed.
  clear_ops_intent_annotations_lem :
      (claw : Claw Quantity) (n : ℤ)
      → parse_int (format_int n) ≡ some n
      → (lookup ops_intent (clear_ops_intent_annotations k claw n).annotations ≡ none)
        × (leb_int
              (current_intent_gen k claw)
              (current_intent_gen k (clear_ops_intent_annotations k claw n))
            ≡ true)
        × (leb_int n (current_intent_gen k (clear_ops_intent_annotations k claw n)) ≡ true)
  unfolding clear_ops_intent_annotations
  clear_ops_intent_annotations_lem claw n back =
      elim (Bool-cases (leb_int n (current_intent_gen k claw))) [
        | inl old ↦
            let gen : current_intent_gen k (clear_ops_intent_annotations k claw n)
                ≡ current_intent_gen k claw =
              ap (current_intent_gen k) (clear_old claw n old) ∙ current_intent_gen-delete claw in
            (
              ap (λ c. lookup ops_intent c.annotations) (clear_old claw n old)
                  ∙ rw (lookup-delete ops_intent ops_intent claw.annotations) refl,
              ap (leb_int (current_intent_gen k claw)) gen
                  ∙ leb_int_refl (current_intent_gen k claw),
              ap (leb_int n) gen ∙ old,
            )
        | inr new ↦
            let gen : current_intent_gen k (clear_ops_intent_annotations k claw n) ≡ n =
              ap (current_intent_gen k) (clear_new claw n new)
              ∙ current_intent_gen-insert claw n back in
            (
              ap (λ c. lookup ops_intent c.annotations) (clear_new claw n new)
                  ∙ rw
                      (
                        lookup-insert ops_intent_gen ops_intent (format_int n)
                            (delete ops_intent claw.annotations),
                        lookup-delete ops_intent ops_intent claw.annotations,
                      )
                      refl,
              ap (leb_int (current_intent_gen k claw)) gen
                  ∙ leb_int_total n (current_intent_gen k claw) new,
              ap (leb_int n) gen ∙ leb_int_refl n,
            )
      ]

  current_intent_gen-apply_intent_patch :
      (w : World Quantity) (claw : Claw Quantity) (patch : IntentPatch Quantity)
      → current_intent_gen k (apply_intent_patch k w claw patch).claw ≡ current_intent_gen k claw
  unfolding current_intent_gen apply_intent_patch bump
  current_intent_gen-apply_intent_patch w claw patch =
      ground (arith, lookup-insert restarted_at ops_intent_gen w.now claw.annotations)

  pub commit-claw :
      (w : World Quantity) (es : List (Effect Quantity)) (reason : String) (claw : Claw Quantity)
      → (commit k w es reason claw).claw ≡ claw
  unfolding commit
  commit-claw w [] reason claw = refl
  commit-claw w (e ∷ es) reason claw = commit-claw w es reason claw

  -- The object that an intent leaves: cleared, from one with the same counter.
  execute-claw :
      (w : World Quantity) (claw : Claw Quantity) (i : OpsIntent)
      → (c : Claw Quantity) × ((execute k w claw i).claw
          ≡ clear_ops_intent_annotations k c i.generation)
        × (current_intent_gen k c ≡ current_intent_gen k claw)
  unfolding execute execute_patch commit
  execute-claw w claw i = elim (Option-cases (build_intent_patch k i)) [
    | inl rejected ↦ (
      claw,
      rw (rejected, execute)
          (commit-claw w [] "OpsIntentRejected" (clear_ops_intent_annotations k claw i.generation)),
      refl,
    )
    | inr (patch, built) ↦ (
      (apply_intent_patch k w claw patch).claw,
      rw (built, execute)
          (commit-claw w (apply_intent_patch k w claw patch).effects
            (if (apply_intent_patch k w claw patch).is_error
              then "OpsIntentFailed"
              else "OpsIntentExecuted")
            (clear_ops_intent_annotations k (apply_intent_patch k w claw patch).claw i.generation)),
      current_intent_gen-apply_intent_patch w claw patch,
    )
  ]

  -- An intent that is consumed, whether it is executed, rejected or fails, is gone from the
  -- object, and the counter is then at its generation or above and not below what it was, if the
  -- text of the generation reads back.
  pub consume_advances :
      (w : World Quantity) (claw : Claw Quantity) (i : OpsIntent)
      → parse_ops_intent k claw ≡ intent i
      → parse_int (format_int i.generation) ≡ some i.generation
      → (lookup ops_intent (consume_and_execute_ops_intent k w claw).claw.annotations ≡ none)
        × (leb_int
              (current_intent_gen k claw)
              (current_intent_gen k (consume_and_execute_ops_intent k w claw).claw)
            ≡ true)
        × (leb_int i.generation
              (current_intent_gen k (consume_and_execute_ops_intent k w claw).claw)
            ≡ true)
  unfolding consume_and_execute_ops_intent consume_parsed
  consume_advances w claw i parsed back =
      let (c, left, gen) = execute-claw w claw i in
      let (gone, up, reached) = clear_ops_intent_annotations_lem c i.generation back in
      let whole : (consume_and_execute_ops_intent k w claw).claw
          ≡ clear_ops_intent_annotations k c i.generation =
        ap (λ p. (consume_parsed k w claw p).claw) parsed ∙ left in
      (
        ap (λ d. lookup ops_intent d.annotations) whole ∙ gone,
        ap (λ d. leb_int (current_intent_gen k claw) (current_intent_gen k d)) whole
            ∙ ap
                (λ g.
                  leb_int g (current_intent_gen k (clear_ops_intent_annotations k c i.generation)))
                (sym gen)
            ∙ up,
        ap (λ d. leb_int i.generation (current_intent_gen k d)) whole ∙ reached,
      )

  current_intent_gen-put :
      (claw : Claw Quantity) (raw : String)
      → current_intent_gen k (record claw { annotations = insert ops_intent raw claw.annotations })
        ≡ current_intent_gen k claw
  unfolding current_intent_gen
  current_intent_gen-put claw raw =
      rw (lookup-insert ops_intent ops_intent_gen raw claw.annotations, current_intent_gen) refl

  guarded :
      (last : ℤ) (j : OpsIntent)
      → leb_int j.generation last ≡ true
      → guard k last (intent j) ≡ nothing
  unfolding guard
  guarded last j old = rw old refl

  skipped :
      (claw : Claw Quantity) (raw : String) (j : OpsIntent)
      → validate_intent k raw ≡ intent j
      → leb_int j.generation (current_intent_gen k claw) ≡ true
      → parse_ops_intent k (record claw { annotations = insert ops_intent raw claw.annotations })
        ≡ nothing
  unfolding parse_ops_intent
  skipped claw raw j valid old = elim (Bool-cases (str_eq raw "")) [
    | inl blank ↦
        rw (lookup-insert ops_intent ops_intent raw claw.annotations, blank, parse_ops_intent) refl
    | inr there ↦
        rw (lookup-insert ops_intent ops_intent raw claw.annotations, there, parse_ops_intent)
          (ap₂ (guard k) (current_intent_gen-put claw raw) valid
            ∙ guarded (current_intent_gen k claw) j old)
  ]

  pub ignored :
      (w : World Quantity) (claw : Claw Quantity) (raw : String) (j : OpsIntent)
      → validate_intent k raw ≡ intent j
      → leb_int j.generation (current_intent_gen k claw) ≡ true
      → (consume_and_execute_ops_intent k w
          (record claw { annotations = insert ops_intent raw claw.annotations })).effects
        ≡ []
  unfolding consume_and_execute_ops_intent consume_parsed
  ignored w claw raw j valid old =
      ap
        (λ p.
          (consume_parsed k w (record claw { annotations = insert ops_intent raw claw.annotations })
            p).effects)
        (skipped claw raw j valid old)

  -- Replay protection: once an intent is consumed, the same intent and every other one that is
  -- allowed and whose generation is not above its own is skipped, without any call, when it is put
  -- on the object again.
  pub consume_ignores_replay :
      (w again : World Quantity) (claw : Claw Quantity) (i j : OpsIntent) (raw : String)
      → parse_ops_intent k claw ≡ intent i
      → parse_int (format_int i.generation) ≡ some i.generation
      → validate_intent k raw ≡ intent j
      → leb_int j.generation i.generation ≡ true
      → (consume_and_execute_ops_intent k again
          (record (consume_and_execute_ops_intent k w claw).claw {
            annotations =
                insert ops_intent raw (consume_and_execute_ops_intent k w claw).claw.annotations;
          })).effects
        ≡ []
  consume_ignores_replay w again claw i j raw parsed back valid old =
      ignored again (consume_and_execute_ops_intent k w claw).claw raw j valid
        (leb_int_trans j.generation i.generation _ old (consume_advances w claw i parsed back).2)
