-- ===== src/Controller/Intent/Tests.antt =====
-- Intents on a small `Claw`, with natural numbers as quantities and two texts for the numbers.
use k8s4claw.Base.{ℕ, ◌≡◌, refl, true, none, some, [], ◌∷◌, pos, leb_int, ltb, lookup, insert}
use k8s4claw.Controller.Intent.{
  current_intent_gen, validate_intent, parse_ops_intent, consume_and_execute_ops_intent, guard,
}
use k8s4claw.Controller.Intent.Types.{
  ResourceRequirements, Codec, OpsIntent, Claw, World, Pod, ops_intent, is_allowed,
}
use k8s4claw.Controller.Intent.Replay.{consume_advances, consume_ignores_replay}

abbrev scale : OpsIntent
scale = record {
  action = "scale-replicas";
  params = ("replicas", "3") ∷ [];
  generation = pos 3;
  source = "clawops";
  escalation_ref = "";
}

abbrev codec : Codec
codec = record {
  Quantity = ℕ;
  zero_quantity = 0;
  parse_quantity = λ s. none;
  is_less = ltb;
  unmarshal = λ s. some scale;
  parse_int = λ s. some (pos 3);
  parse_int32 = λ s. some (pos 3);
  format_int = λ n. "3";
}

abbrev claw : Claw ℕ
claw = record { annotations = (ops_intent, "scale") ∷ []; replicas = none; resources = none }

abbrev world : World ℕ
world = record { list_pods = some []; delete_pod = λ p. true; patch = λ c. true; now = "now" }

abbrev young : Pod
young = record { name = "claw-0"; created = 20 }

abbrev old : Pod
old = record { name = "claw-1"; created = 10 }

consume_advances_example :
    (lookup ops_intent (consume_and_execute_ops_intent codec world claw).claw.annotations ≡ none)
    × (leb_int
          (current_intent_gen codec claw)
          (current_intent_gen codec (consume_and_execute_ops_intent codec world claw).claw)
        ≡ true)
    × (leb_int
          (pos 3)
          (current_intent_gen codec (consume_and_execute_ops_intent codec world claw).claw)
        ≡ true)
unfolding parse_ops_intent validate_intent current_intent_gen guard is_allowed lookup
consume_advances_example = consume_advances codec world claw scale refl refl

consume_ignores_replay_example :
    (consume_and_execute_ops_intent codec world
      (record (consume_and_execute_ops_intent codec world claw).claw {
        annotations =
            insert ops_intent "again"
              (consume_and_execute_ops_intent codec world claw).claw.annotations;
      })).effects
    ≡ []
unfolding parse_ops_intent validate_intent current_intent_gen guard is_allowed lookup
consume_ignores_replay_example =
    consume_ignores_replay codec world world claw scale scale "again" refl refl refl refl

abbrev bumped : ResourceRequirements ℕ
bumped = record { limits = ("memory", 512) ∷ []; requests = [] }

abbrev given : ResourceRequirements ℕ
given = record { limits = ("memory", 256) ∷ ("cpu", 2) ∷ []; requests = ("memory", 128) ∷ [] }
