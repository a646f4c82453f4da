-- ===== src/Controller/Channels/Tests.antt =====
-- A claw with three channels, and a channel that is deleted.
use k8s4claw.Base.{
  ◌≡◌, refl, ℕ, String, Bool, true, false, none, some, List, [], ◌∷◌, All, str_eq, eq_refl, arith,
  ◌||◌, if◌then◌else◌,
}
use k8s4claw.Controller.AutoUpdate.Cluster.{Found, found, not_found}
use k8s4claw.Controller.Channels.Types.{
  ChannelRef, Kinds, ClawChannelSpec, PodSpec, ClawChannel, Helpers, Cluster,
}
use k8s4claw.Controller.Channels.{reconcile}
use k8s4claw.Controller.Channels.Deletion.{Guards, reconcile_channel-Guards}

abbrev kinds : Kinds
kinds = record {
  Quantity = String;
  Json = String;
  Port = ℕ;
  Probe = ℕ;
  must_parse = λ s. s;
  marshal = λ s. some s;
}

abbrev slack : ClawChannelSpec kinds
slack = record {
  type = "slack";
  mode = "inbound";
  secret_ref = some "token";
  config = none;
  resources = none;
  sidecar = none;
}

abbrev fetch : String → Found (ClawChannelSpec kinds)
fetch name = if str_eq name "chat" then found slack else not_found

-- One that is there, one in a mode that is not supported, and one that is missing.
abbrev refs : List ChannelRef
refs =
    record { name = "chat"; mode = "inbound" }
    ∷ record { name = "chat"; mode = "outbound" }
    ∷ record { name = "lost"; mode = "inbound" }
    ∷ []

abbrev pod : PodSpec kinds
pod = record { init_containers = []; containers = [] }

abbrev held : String → List String → Bool
held f [] = false
held f (x ∷ fs) = str_eq x f || held f fs

held_added : (f : String) (fs : List String) → held f (f ∷ fs) ≡ true
held_added f fs = ground (arith, eq_refl f)

abbrev helpers : Helpers
helpers = record {
  contains_finalizer = held;
  add_finalizer = λ f fs. f ∷ fs;
  remove_finalizer = λ f fs. [];
  set_status_condition = λ c cs. c ∷ cs;
  in_use_message = λ claws. "channel is referenced";
  contains-add = held_added;
}

abbrev channel : ClawChannel
channel = record {
  name = "chat";
  is_deleting = true;
  generation = 2;
  finalizers = "claw.prismer.ai/channel-cleanup" ∷ [];
  conditions = [];
  observed_generation = 1;
  reference_count = 1;
  referencing_claws = "claw" ∷ [];
}

abbrev cluster : Cluster
cluster = record {
  channel = found channel;
  referencing = some [];
  patch = true;
  update_status = true;
}

reconcile_channel-Guards_example :
    All (Guards helpers channel (some [])) (reconcile helpers cluster).0
reconcile_channel-Guards_example = reconcile_channel-Guards helpers cluster channel refl
