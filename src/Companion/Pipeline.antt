-- ===== src/Companion/Pipeline.antt =====
-- The analysis of an escalation by a language model, with retries: cmd/claw4k8s/pipeline.go.
use k8s4claw.Base.{
  ℕ, zero, suc, ◌+◌, ◌-◌, ◌*◌, String, ◌<>◌, Bool, ◌&&◌, List, [], ◌∷◌, ℤ, pos, if◌then◌else◌, ltb,
  str_eq, get_or, length,
}
use k8s4claw.Controller.Ops.Types.{Escalation, second}

-- The answer of one call of `Analyze`.
pub data Answer : Type 0 where
  answered : String → String → Answer
  call_failed : Answer

-- The model's answers by the number of the call, whether the context ends during the wait after a
-- call, and the texts of numbers.
pub record Model : Type 0 where
  pub answer : ℕ → Answer
  pub is_cancelled : ℕ → Bool
  pub format_number : ℕ → String

pub data Analyzed : Type 0 where
  analyzed : String → String → Analyzed
  cancelled : Analyzed

-- How many calls were made, how long was waited, and what comes back.
pub record Run : Type 0 where
  pub calls : ℕ
  pub waited : ℕ
  pub result : Analyzed

-- `MaxRetries`, or 3 if it is not positive.
unfoldable pub retries_of : ℤ → ℕ
retries_of (pos zero) = 3
retries_of (pos (suc n)) = suc n
retries_of (ℤ.negsuc n) = 3

abbrev pub delays : List ℕ
delays = 5 * second ∷ 15 * second ∷ 45 * second ∷ []

-- For a review by a human.
unfoldable pub fallback_analysis : Model → ℕ → Escalation → String
fallback_analysis m retries esc =
    "LLM analysis unavailable after "
    <> m.format_number retries
    <> " retries. Trigger: "
    <> esc.trigger.type
    <> " ("
    <> esc.trigger.message
    <> "). Count: "
    <> m.format_number esc.trigger.count
    <> ". Severity: "
    <> esc.severity
    <> "."

abbrev pub fallback : Model → ℕ → Escalation → Analyzed
fallback m retries esc = analyzed (fallback_analysis m retries esc) ""

-- After a failed call: the wait if there is one, then the other attempts.
unfoldable pub after_failure : Model → ℕ → ℕ → Run → Run
after_failure m retries i rest =
    if ltb i (length delays) && ltb i (retries - 1)
    then (if m.is_cancelled i
        then (record { calls = 1; waited = 0; result = cancelled })
        else (record rest { calls = suc rest.calls; waited = get_or delays i 0 + rest.waited }))
    else (record rest { calls = suc rest.calls })

unfoldable pub after_answer : Model → ℕ → Escalation → ℕ → Run → Answer → Run
after_answer m retries esc i rest (answered analysis action) =
    if str_eq analysis "" && str_eq action ""
    then (record { calls = 1; waited = 0; result = fallback m retries esc })
    else (record { calls = 1; waited = 0; result = analyzed analysis action })
after_answer m retries esc i rest call_failed = after_failure m retries i rest

-- The loop from the attempt `i` on, with the number of attempts that are left.
unfoldable pub attempts : Model → ℕ → Escalation → ℕ → ℕ → Run
attempts m retries esc i zero = record { calls = 0; waited = 0; result = fallback m retries esc }
attempts m retries esc i (suc left) =
    after_answer m retries esc i (attempts m retries esc (suc i) left) (m.answer i)

unfoldable pub analyze : Model → ℤ → Escalation → Run
analyze m max_retries esc = attempts m (retries_of max_retries) esc 0 (retries_of max_retries)

unfoldable pub build_prompt : Model → Escalation → String
build_prompt m esc =
    "Analyze this Kubernetes issue and propose a remediation.\n"
    <> "Trigger: "
    <> esc.trigger.type
    <> "\nMessage: "
    <> esc.trigger.message
    <> "\nCount: "
    <> m.format_number esc.trigger.count
    <> "\nSeverity: "
    <> esc.severity
    <> "\n"
