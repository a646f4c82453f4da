-- ===== src/Companion/Retries.antt =====
-- How long an analysis takes and what it gives: cmd/claw4k8s/pipeline.go.
use Prim.Native.Char.{Char}
use Prim.Native.String.{◌++◌}
use text.Mathlib.TextLemmas.{cons-append}
use k8s4claw.Base.{
  eq_iff, ℕ, zero, suc, ◌+◌, ◌-◌, ◌*◌, ◌≤◌, ◌<◌, ◌≡◌, refl, sym, ap, ◌∙◌, String, Bool, true, false,
  ◌&&◌, inl, inr, arith, Bool-cases, ℤ, ltb, str_eq, get_or, length, ◌<>◌,
}
use k8s4claw.Controller.Ops.Types.{Escalation, second}
use k8s4claw.Companion.Pipeline.{
  Answer, answered, call_failed, Model, Analyzed, analyzed, cancelled, Run, retries_of, delays,
  fallback_analysis, fallback, after_failure, after_answer, attempts, analyze,
}

is_blank : String → Bool
is_blank String.[] = true
is_blank (String.◌∷◌ c s) = false

-- The sum of the delays from the attempt `i` on.
abbrev delays_from : ℕ → ℕ
delays_from zero = 65 * second
delays_from (suc zero) = 60 * second
delays_from (suc (suc zero)) = 45 * second
delays_from (suc (suc (suc i))) = 0

-- An analysis or an action is there.
abbrev pub IsFilled : Analyzed → Type 0
IsFilled cancelled = Unit
IsFilled (analyzed analysis action) = (str_eq analysis "" && str_eq action "") ≡ false

module _ (m : Model) (retries : ℕ) (esc : Escalation) where
  -- The wait after an attempt is the difference of the sums.
  delays_step : (i : ℕ) → get_or delays i 0 + delays_from (suc i) ≤ delays_from i
  delays_step zero = omega arith
  delays_step (suc zero) = omega arith
  delays_step (suc (suc zero)) = omega arith
  delays_step (suc (suc (suc i))) = omega arith

  Bounded : ℕ → ℕ → Run → Type 0
  Bounded i left run = (run.calls ≤ left) × (run.waited ≤ delays_from i)

  after_failure-Bounded :
      (i left : ℕ) (rest : Run)
      → Bounded (suc i) left rest
      → Bounded i (suc left) (after_failure m retries i rest)
  unfolding after_failure Bounded
  after_failure-Bounded i left rest (calls, waited) = ground (arith, calls, waited, delays_step i)

  after_answer-Bounded :
      (i left : ℕ) (rest : Run) (answer : Answer)
      → Bounded (suc i) left rest
      → Bounded i (suc left) (after_answer m retries esc i rest answer)
  unfolding after_answer Bounded
  after_answer-Bounded i left rest call_failed bound = after_failure-Bounded i left rest bound
  after_answer-Bounded i left rest (answered analysis action) bound =
      elim (Bool-cases (str_eq analysis "" && str_eq action "")) [
        | inl empty ↦ rw empty (omega arith, omega arith)
        | inr given ↦ rw given (omega arith, omega arith)
      ]

  attempts-Bounded : (i left : ℕ) → Bounded i left (attempts m retries esc i left)
  unfolding attempts Bounded
  attempts-Bounded i zero = (omega arith, omega arith)
  attempts-Bounded i (suc left) =
      after_answer-Bounded i left (attempts m retries esc (suc i) left) (m.answer i)
        (attempts-Bounded (suc i) left)

  -- A text with a character in front is not empty.
  front-ne : (c : Char) (s t : String) → str_eq (String.◌∷◌ c s ++ t) "" ≡ false
  unfolding is_blank
  front-ne c s t = elim (Bool-cases (str_eq (String.◌∷◌ c s ++ t) "")) [
    | inr there ↦ there
    | inl empty ↦ absurd (
        ground (
          arith,
          ap is_blank (sym (cons-append c s t) ∙ (eq_iff (String.◌∷◌ c s ++ t) "").0 empty),
        ))
  ]

  fallback-IsFilled : IsFilled (fallback m retries esc)
  unfolding fallback_analysis
  fallback-IsFilled =
      rw
        (front-ne "L" "LM analysis unavailable after " (
          m.format_number retries
          <> " retries. Trigger: "
          <> esc.trigger.type
          <> " ("
          <> esc.trigger.message
          <> "). Count: "
          <> m.format_number esc.trigger.count
          <> ". Severity: "
          <> esc.severity
          <> "."))
        refl

  after_failure-IsFilled :
      (i : ℕ) (rest : Run) → IsFilled rest.result → IsFilled (after_failure m retries i rest).result
  unfolding after_failure
  after_failure-IsFilled i rest there =
      elim (Bool-cases (ltb i (length delays) && ltb i (retries - 1))) [
        | inr last ↦ rw (last, after_failure, IsFilled) there
        | inl waits ↦ elim (Bool-cases (m.is_cancelled i)) [
          | inl stop ↦ rw (waits, after_failure, stop) tt
          | inr go ↦ rw (waits, after_failure, go, IsFilled) there
        ]
      ]

  after_answer-IsFilled :
      (i : ℕ) (rest : Run) (answer : Answer)
      → IsFilled rest.result
      → IsFilled (after_answer m retries esc i rest answer).result
  unfolding after_answer
  after_answer-IsFilled i rest call_failed there = after_failure-IsFilled i rest there
  after_answer-IsFilled i rest (answered analysis action) there =
      elim (Bool-cases (str_eq analysis "" && str_eq action "")) [
        | inl empty ↦ rw (empty, after_answer) fallback-IsFilled
        | inr given ↦ rw (given, after_answer, IsFilled) given
      ]

  attempts-IsFilled : (i left : ℕ) → IsFilled (attempts m retries esc i left).result
  unfolding attempts
  attempts-IsFilled i zero = fallback-IsFilled
  attempts-IsFilled i (suc left) =
      after_answer-IsFilled i (attempts m retries esc (suc i) left) (m.answer i)
        (attempts-IsFilled (suc i) left)

-- An analysis ends after at most the configured number of calls, 3 if that is not positive, and at
-- most 65 seconds of waiting, and unless it is cancelled it gives an analysis or an action: without
-- an answer, a text for a human.
pub analyze_ends :
    (m : Model) (max_retries : ℤ) (esc : Escalation)
    → ((analyze m max_retries esc).calls ≤ retries_of max_retries)
      × ((analyze m max_retries esc).waited ≤ 65 * second)
      × IsFilled (analyze m max_retries esc).result
unfolding analyze Bounded
analyze_ends m max_retries esc =
    let retries = retries_of max_retries in
    let bound = attempts-Bounded m retries esc 0 retries in
    (bound.0, bound.1, attempts-IsFilled m retries esc 0 retries)

-- The first `n` calls fail, and no wait after them is cut short.
abbrev pub AllFail : Model → ℕ → ℕ → Type 0
AllFail m i zero = Unit
AllFail m i (suc n) = (m.answer i ≡ call_failed) × (m.is_cancelled i ≡ false) × AllFail m (suc i) n

after_failure_result :
    (m : Model) (retries i : ℕ) (rest : Run)
    → m.is_cancelled i ≡ false
    → ((after_failure m retries i rest).result ≡ rest.result)
      × ((after_failure m retries i rest).calls ≡ suc rest.calls)
unfolding after_failure
after_failure_result m retries i rest go =
    elim (Bool-cases (ltb i (length delays) && ltb i (retries - 1))) [
      | inr last ↦ rw (last, after_failure) (refl, refl)
      | inl waits ↦ rw (waits, after_failure, go) (refl, refl)
    ]

attempts_answered :
    (m : Model) (retries : ℕ) (esc : Escalation) (n i j total : ℕ) (analysis action : String)
    → AllFail m i n
    → j ≡ i + n
    → n < total
    → m.answer j ≡ answered analysis action
    → (str_eq analysis "" && str_eq action "") ≡ false
    → ((attempts m retries esc i total).result ≡ analyzed analysis action)
      × ((attempts m retries esc i total).calls ≡ suc n)
unfolding attempts after_answer
attempts_answered m retries esc n i j zero analysis action fails at less given there =
    absurd (omega (arith, less))
attempts_answered m retries esc zero i j (suc left) analysis action fails at less given there =
    let first : m.answer i ≡ answered analysis action =
      ap (λ k. m.answer k) (omega (arith, at)) ∙ given in
    rw (first, attempts, after_answer, there) (refl, refl)
attempts_answered m retries esc (suc n) i j (suc left) analysis action (lost, go, fails) at less
      given there =
    let rest = attempts m retries esc (suc i) left in
    let later =
      attempts_answered m retries esc n (suc i) j left analysis action fails (omega (arith, at))
        (omega (arith, less)) given there in
    let failed = after_failure_result m retries i rest go in
    rw (lost, attempts, after_answer) (failed.0 ∙ later.0, failed.1 ∙ ap suc later.1)

-- The analysis gives the first answer: if the calls before it fail, it is within the number of calls,
-- no wait is cut short and it is not empty, it comes back as it is, and no further call is made.
analyze_first_answer :
    (m : Model) (max_retries : ℤ) (esc : Escalation) (n : ℕ) (analysis action : String)
    → AllFail m 0 n
    → n < retries_of max_retries
    → m.answer n ≡ answered analysis action
    → (str_eq analysis "" && str_eq action "") ≡ false
    → ((analyze m max_retries esc).result ≡ analyzed analysis action)
      × ((analyze m max_retries esc).calls ≡ suc n)
unfolding analyze
analyze_first_answer m max_retries esc n analysis action fails less given there =
    let retries = retries_of max_retries in
    attempts_answered m retries esc n 0 n retries analysis action fails (omega arith) less given
      there
