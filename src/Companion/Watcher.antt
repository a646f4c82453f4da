-- ===== src/Companion/Watcher.antt =====
-- The watcher of pending escalations: cmd/claw4k8s/watcher.go.
use k8s4claw.Base.{
  ℕ, suc, ◌+◌, ◌*◌, String, ◌<>◌, Bool, true, false, not, Option, none, some, List, [], ◌∷◌, ◌++◌,
  ℤ, if◌then◌else◌, ltb, str_eq,
}
use k8s4claw.Controller.Ops.Types.{
  analyzing, awaiting_approval, failed, is_pending, Escalation, second,
}
use k8s4claw.Companion.Pipeline.{Model, Analyzed, analyzed, cancelled, analyze}

abbrev pub default_poll_interval : ℕ
default_poll_interval = 10 * second

-- The interval is a duration that is not negative.
pub record Watcher : Type 0 where
  pub max_retries : ℤ
  pub namespaces : List String
  pub namespace : String
  pub interval : ℕ

-- `slices.Contains`
unfoldable pub is_listed : String → List String → Bool
is_listed s [] = false
is_listed s (t ∷ ts) = let rest = is_listed s ts in if str_eq t s then true else rest

unfoldable pub normalize_namespaces : Watcher → Watcher
normalize_namespaces w = if str_eq w.namespace "" then w else (record w {
  namespaces =
      if is_listed w.namespace w.namespaces
      then w.namespaces
      else w.namespaces ++ (w.namespace ∷ []);
  namespace = "";
})

unfoldable pub poll_interval : Watcher → ℕ
poll_interval w = if ltb 0 w.interval then w.interval else default_poll_interval

-- What the watcher does to an escalation.
pub data Act : Type 0 where
  update : Escalation → Act
  notify : Escalation → Act

-- The calls, and whether an error is returned.
pub record Processed : Type 0 where
  pub acts : List Act
  pub is_error : Bool

-- The answers of the API server to the status updates, and the analyses, which take an escalation.
pub record Env : Type 0 where
  pub model : Escalation → Model
  pub update_status : Escalation → Bool
  pub pipeline_error : String
  pub list : String → Option (List Escalation)

abbrev pub begun : Escalation → Escalation
begun esc = record esc { phase = analyzing }

unfoldable pub set_failed : String → Escalation → Escalation
set_failed reason esc = record esc { phase = failed; analysis = reason }

-- The result of the analysis, for a human to approve.
abbrev pub proposed_by : String → String → Escalation → Escalation
proposed_by analysis action esc = record esc {
  analysis = analysis;
  proposed_action = action;
  phase = awaiting_approval;
}

-- From the end of the analysis on; a failure to notify is only logged.
unfoldable pub finish : Env → Escalation → Analyzed → Processed
finish env esc cancelled = record {
  acts = update (set_failed ("pipeline error: " <> env.pipeline_error) esc) ∷ [];
  is_error = true;
}
finish env esc (analyzed analysis action) =
    let e = proposed_by analysis action esc in
    if env.update_status e
    then (record { acts = update e ∷ notify e ∷ []; is_error = false })
    else (record { acts = update e ∷ []; is_error = true })

-- Pending → Analyzing → AwaitingApproval or Failed.
unfoldable pub process_escalation : Env → ℤ → Escalation → Processed
process_escalation env max_retries esc =
    if not (is_pending esc.phase)
    then (record { acts = []; is_error = false })
    else (if env.update_status (begun esc)
        then (let rest =
              finish env (begun esc) (analyze (env.model esc) max_retries (begun esc)).result in
            record rest { acts = update (begun esc) ∷ rest.acts })
        else (record { acts = update (begun esc) ∷ []; is_error = true }))

-- The number of escalations that were processed, and what was done.
pub record Pass : Type 0 where
  pub processed : ℕ
  pub acts : List Act

unfoldable pub pass_over : Env → ℤ → List Escalation → Pass
pass_over env max_retries [] = record { processed = 0; acts = [] }
pass_over env max_retries (esc ∷ escs) =
    let rest = pass_over env max_retries escs in
    let p = process_escalation env max_retries esc in
    if is_pending esc.phase
    then (record {
      processed = if p.is_error then rest.processed else suc rest.processed;
      acts = p.acts ++ rest.acts;
    })
    else rest

-- No namespace, `""`, is the whole cluster.
unfoldable pub reconcile_namespace : Env → ℤ → String → Pass
reconcile_namespace env max_retries ns = elim (env.list ns) [
  | none ↦ record { processed = 0; acts = [] }
  | some escs ↦ pass_over env max_retries escs
]

unfoldable pub reconcile_namespaces : Env → ℤ → List String → Pass
reconcile_namespaces env max_retries [] = record { processed = 0; acts = [] }
reconcile_namespaces env max_retries (ns ∷ rest) =
    let first = reconcile_namespace env max_retries ns in
    let others = reconcile_namespaces env max_retries rest in
    record { processed = first.processed + others.processed; acts = first.acts ++ others.acts }

-- The namespaces that are asked: the whole cluster if none is set.
abbrev pub scopes : List String → List String
scopes [] = "" ∷ []
scopes (ns ∷ rest) = ns ∷ rest

unfoldable pub reconcile_pending : Env → Watcher → Watcher × Pass
reconcile_pending env w =
    let w' = normalize_namespaces w in
    (w', reconcile_namespaces env w'.max_retries (scopes w'.namespaces))
