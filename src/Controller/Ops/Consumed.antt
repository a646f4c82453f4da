-- ===== src/Controller/Ops/Consumed.antt =====
-- What becomes of the intent of a rule: internal/controller/clawops_controller.go writes it, and
-- internal/controller/claw_ops_intent_consumer.go consumes it.
use k8s4claw.Base.{
  ◌≡◌, refl, ap, ◌∙◌, String, true, ◌⊎◌, inl, inr, Option, none, some, [], ℕ, Bool-cases, str_eq,
  lookup, leb_int, ℤ, insert, delete,
}
use k8s4claw.Rules.Types.{Rule, patch_resource}
use k8s4claw.Controller.Intent.Types.{
  Codec, OpsIntent, World, Outcome, Parsed, intent, ops_intent, Effect, patch_call, event,
  is_allowed,
}
use k8s4claw.Controller.Intent.Types as Intents
use k8s4claw.Controller.Intent.{
  validate_intent, current_intent_gen, parse_ops_intent, clear_ops_intent_annotations, required,
  parse_target, build_intent_patch, commit, execute_patch, execute, consume_parsed,
  consume_and_execute_ops_intent,
}
use k8s4claw.Controller.Intent.Replay.{ignored}
use k8s4claw.Controller.Ops.Types.{Escalation}
use k8s4claw.Controller.Ops.{patch_action, rule_action_to_intent_action, rule_intent}

-- The two actions that a `PatchResource` rule can ask for.
abbrev IsBump : String → Type 0
IsBump action = (action ≡ "bump-memory") ⊎ (action ≡ "bump-cpu")

patch_action-IsBump : (field : Option String) → IsBump (patch_action field)
unfolding patch_action
patch_action-IsBump none = inl refl
patch_action-IsBump (some field) = elim (Bool-cases (str_eq field "memory-limit")) [
  | inl memory ↦ rw memory (inl refl)
  | inr other ↦ elim (Bool-cases (str_eq field "cpu-request")) [
    | inl cpu ↦ rw (other, cpu) (inr refl)
    | inr neither ↦ rw (other, neither) (inl refl)
  ]
]

patch_rule-IsBump :
    (rule : Rule) → rule.action.type ≡ patch_resource → IsBump (rule_action_to_intent_action rule)
unfolding rule_action_to_intent_action
patch_rule-IsBump rule kind = rw kind (patch_action-IsBump (lookup "field" rule.action.params))

cleared_resources :
    (k : Codec) (claw : Intents.Claw k.Quantity) (processed : ℤ)
    → (clear_ops_intent_annotations k claw processed).resources ≡ claw.resources
unfolding clear_ops_intent_annotations
cleared_resources k claw processed =
    let cleared : Intents.Claw k.Quantity = record claw {
      annotations = delete ops_intent claw.annotations;
    } in
    elim (Bool-cases (leb_int processed (current_intent_gen k cleared))) [
      | inl old ↦ rw (old, clear_ops_intent_annotations) refl
      | inr newer ↦ rw (newer, clear_ops_intent_annotations) refl
    ]

bump_unbuilt :
    (k : Codec) (i : OpsIntent)
    → IsBump i.action
    → lookup "target" i.params ≡ none
    → build_intent_patch k i ≡ none
unfolding build_intent_patch parse_target required
bump_unbuilt k i (inl memory) lost = rw (memory, lost) refl
bump_unbuilt k i (inr cpu) lost = rw (cpu, lost) refl

-- A `PatchResource` rule that names no target, as the built-in ones, whose parameters are a field, a
-- strategy and a maximum: its intent, once it is read, is rejected, and the resources of the claw
-- stay as they are.
pub targetless_rejected :
    (k : Codec) (w : World k.Quantity) (claw : Intents.Claw k.Quantity) (now : ℕ) (rule : Rule)
    → rule.action.type ≡ patch_resource
    → lookup "target" rule.action.params ≡ none
    → parse_ops_intent k claw ≡ intent (rule_intent now rule)
    → (consume_and_execute_ops_intent k w claw
        ≡ commit k w [] "OpsIntentRejected"
            (clear_ops_intent_annotations k claw (rule_intent now rule).generation))
      × ((consume_and_execute_ops_intent k w claw).claw.resources ≡ claw.resources)
unfolding consume_and_execute_ops_intent consume_parsed execute execute_patch rule_intent commit
targetless_rejected k w claw now rule kind lost parsed =
    let i = rule_intent now rule in
    let rejected =
      ap (consume_parsed k w claw) parsed
      ∙ ap (execute_patch k w claw i) (bump_unbuilt k i (patch_rule-IsBump rule kind) lost) in
    (rejected, ap (λ o. o.claw.resources) rejected ∙ cleared_resources k claw i.generation)

-- An approved action whose generation is not above the counter of the claw: the consumer skips it,
-- without any call, when it is written.
stale_approval_skipped :
    (k : Codec) (w : World k.Quantity) (claw : Intents.Claw k.Quantity) (esc : Escalation)
    (i : OpsIntent)
    → validate_intent k esc.proposed_action ≡ intent i
    → leb_int i.generation (current_intent_gen k claw) ≡ true
    → (consume_and_execute_ops_intent k w (record claw {
      annotations = insert ops_intent esc.proposed_action claw.annotations;
    })).effects
      ≡ []
stale_approval_skipped k w claw esc i valid old = ignored k w claw esc.proposed_action i valid old
