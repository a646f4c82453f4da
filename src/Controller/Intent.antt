-- ===== src/Controller/Intent.antt =====
-- Operations that are asked for by an annotation: internal/controller/clawops_intent.go and
-- internal/controller/claw_ops_intent_consumer.go. JSON, the texts of numbers, the quantities of
-- the Kubernetes library and the cluster's answers are parameters.
pub mod Types
pub mod Template
pub mod Replay
pub mod Resources
pub mod Limits
pub mod Restart
pub mod Overrides
mod Tests
use k8s4claw.Base.{
  ℕ, zero, suc, String, Bool, true, false, not, ◌&&◌, ◌||◌, Option, none, some, List, [], ◌∷◌, ℤ,
  pos, negsuc, leb_int, if◌then◌else◌, ltb, leb, str_eq, Dict, lookup, insert, delete,
}
use k8s4claw.Controller.Intent.Types.{
  Claw, Codec, Effect, IntentPatch, OpsIntent, Outcome, Parsed, Pod, ResourceRequirements, World,
  delete_pod_call, event, intent, invalid, is_allowed, nothing, oldest_of, oldest_pod, ops_intent,
  ops_intent_gen, patch_call, resources_of, restarted_at,
}

module _ (k : Codec) where
  open k use {
    Quantity, zero_quantity, parse_quantity, is_less, unmarshal, parse_int, parse_int32, format_int,
  }

  unfoldable pub validate_intent : String → Parsed
  validate_intent raw = elim (unmarshal raw) [
    | none ↦ invalid
    | some i ↦
        if str_eq i.action "" then invalid else (if is_allowed i.action then intent i else invalid)
  ]

  -- `ParseInt` of a text, 0 for one that is missing or no number.
  unfoldable pub current_intent_gen : Claw Quantity → ℤ
  current_intent_gen claw = elim (lookup ops_intent_gen claw.annotations) [
    | none ↦ pos 0
    | some text ↦ elim (parse_int text) [ none ↦ pos 0 | some n ↦ n ]
  ]

  -- The guard on the generation: an intent that is not newer is skipped.
  unfoldable pub guard : ℤ → Parsed → Parsed
  guard last nothing = nothing
  guard last invalid = invalid
  guard last (intent i) = if leb_int i.generation last then nothing else intent i

  unfoldable pub parse_ops_intent : Claw Quantity → Parsed
  parse_ops_intent claw = elim (lookup ops_intent claw.annotations) [
    | none ↦ nothing
    | some raw ↦
        if str_eq raw "" then nothing else guard (current_intent_gen claw) (validate_intent raw)
  ]

  -- The intent goes; the counter is raised if the generation is above it, and is never lowered.
  unfoldable pub clear_ops_intent_annotations : Claw Quantity → ℤ → Claw Quantity
  clear_ops_intent_annotations claw processed =
      let cleared : Claw Quantity = record claw {
        annotations = delete ops_intent claw.annotations;
      } in
      if leb_int processed (current_intent_gen cleared) then cleared else (record cleared {
        annotations = insert ops_intent_gen (format_int processed) cleared.annotations;
      })

  -- A parameter that has to be there.
  unfoldable pub required : String → OpsIntent → Option String
  required key i = elim (lookup key i.params) [
    | none ↦ none
    | some v ↦ if str_eq v "" then none else some v
  ]

  abbrev pub empty_patch : String → IntentPatch Quantity
  empty_patch action = record {
    action = action;
    memory_limit = zero_quantity;
    cpu_limit = zero_quantity;
    replicas = pos 0;
  }

  unfoldable pub parse_target : OpsIntent → Option Quantity
  parse_target i = elim (required "target" i) [ none ↦ none | some t ↦ parse_quantity t ]

  -- Between 1 and 10.
  unfoldable pub parse_replicas : OpsIntent → Option ℤ
  parse_replicas i = elim (required "replicas" i) [
    | none ↦ none
    | some t ↦ elim (parse_int32 t) [
      | none ↦ none
      | some n ↦ if not (leb_int (pos 1) n) || not (leb_int n (pos 10)) then none else some n
    ]
  ]

  unfoldable pub build_intent_patch : OpsIntent → Option (IntentPatch Quantity)
  build_intent_patch i =
      if str_eq i.action "bump-memory"
      then elim (parse_target i) [
        | none ↦ none
        | some q ↦ some (record (empty_patch i.action) { memory_limit = q })
      ]
      else (if str_eq i.action "bump-cpu"
          then elim (parse_target i) [
            | none ↦ none
            | some q ↦ some (record (empty_patch i.action) { cpu_limit = q })
          ]
          else (if str_eq i.action "restart-pod" || str_eq i.action "rollout-restart"
              then some (empty_patch i.action)
              else (if str_eq i.action "scale-replicas"
                  then elim (parse_replicas i) [
                    | none ↦ none
                    | some n ↦ some (record (empty_patch i.action) { replicas = n })
                  ]
                  else none)))

  -- The request is set to the quantity if there is none or if it would lie above.
  unfoldable pub bump_request : String → Quantity → Dict Quantity → Dict Quantity
  bump_request name q requests = elim (lookup name requests) [
    | none ↦ insert name q requests
    | some r ↦ if is_less q r then insert name q requests else requests
  ]

  unfoldable pub bump : String → Quantity → Claw Quantity → Claw Quantity
  bump name q claw =
      let res = resources_of claw in
      record claw {
        resources = some (record {
          limits = insert name q res.limits;
          requests = bump_request name q res.requests;
        });
      }

  -- `applyRestartPod`, with whether an error comes back.
  unfoldable pub apply_restart_pod : World Quantity → List (Effect Quantity) × Bool
  apply_restart_pod w = elim w.list_pods [
    | none ↦ ([], true)
    | some pods ↦ elim (oldest_pod pods) [
      | none ↦ ([], false)
      | some pod ↦ (delete_pod_call pod ∷ [], not (w.delete_pod pod))
    ]
  ]

  unfoldable pub apply_intent_patch :
      World Quantity → Claw Quantity → IntentPatch Quantity → Outcome Quantity
  apply_intent_patch w claw patch =
      if str_eq patch.action "bump-memory"
      then (record { effects = []; claw = bump "memory" patch.memory_limit claw; is_error = false })
      else (if str_eq patch.action "bump-cpu"
          then (record { effects = []; claw = bump "cpu" patch.cpu_limit claw; is_error = false })
          else (if str_eq patch.action "scale-replicas"
              then (record {
                effects = [];
                claw = record claw { replicas = some patch.replicas };
                is_error = false;
              })
              else (if str_eq patch.action "rollout-restart"
                  then (record {
                    effects = [];
                    claw = record claw { annotations = insert restarted_at w.now claw.annotations };
                    is_error = false;
                  })
                  else (if str_eq patch.action "restart-pod"
                      then (record {
                        effects = (apply_restart_pod w).0;
                        claw = claw;
                        is_error = (apply_restart_pod w).1;
                      })
                      else (record { effects = []; claw = claw; is_error = true })))))

  -- The patch of the object, and the event once it has been written. A recorder of events is taken
  -- to be there.
  unfoldable pub commit :
      World Quantity → List (Effect Quantity) → String → Claw Quantity → Outcome Quantity
  commit w [] reason claw = record {
    effects = patch_call claw ∷ (if w.patch claw then event reason ∷ [] else []);
    claw = claw;
    is_error = not (w.patch claw);
  }
  commit w (e ∷ es) reason claw =
      let rest = commit w es reason claw in record rest { effects = e ∷ rest.effects }

  -- An intent that was read and is newer than the counter, with its patch if it has one.
  unfoldable pub execute_patch :
      World Quantity → Claw Quantity → OpsIntent → Option (IntentPatch Quantity) → Outcome Quantity
  execute_patch w claw i none =
      commit w [] "OpsIntentRejected" (clear_ops_intent_annotations claw i.generation)
  execute_patch w claw i (some patch) =
      let applied = apply_intent_patch w claw patch in
      commit w applied.effects (if applied.is_error then "OpsIntentFailed" else "OpsIntentExecuted")
        (clear_ops_intent_annotations applied.claw i.generation)

  unfoldable pub execute : World Quantity → Claw Quantity → OpsIntent → Outcome Quantity
  execute w claw i = execute_patch w claw i (build_intent_patch i)

  unfoldable pub consume_parsed : World Quantity → Claw Quantity → Parsed → Outcome Quantity
  consume_parsed w claw nothing = record { effects = []; claw = claw; is_error = false }
  consume_parsed w claw invalid =
      commit w [] "OpsIntentRejected" (clear_ops_intent_annotations claw (current_intent_gen claw))
  consume_parsed w claw (intent i) = execute w claw i

  unfoldable pub consume_and_execute_ops_intent : World Quantity → Claw Quantity → Outcome Quantity
  consume_and_execute_ops_intent w claw = consume_parsed w claw (parse_ops_intent claw)
