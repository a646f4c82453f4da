-- ===== src/Controller/Ops/RateLimit.antt =====
-- The budget of actions of a claw over any sequence of reconciliations
-- (internal/controller/clawops_controller.go).
use k8s4claw.Base.{
  ℕ, ◌+◌, ◌≤◌, ◌≡◌, refl, ap, ◌∙◌, String, Bool, true, false, ◌&&◌, inl, inr, List, [], ◌∷◌, ◌++◌,
  arith, length, keep, replicate, ltb, leb, leb→le, str_eq, Bool-cases, length-keep-append,
  length-keep_mono, keep-keep,
}
use k8s4claw.Controller.Ops.Types.{
  EscalationPhase, auto_executed, Ops, Platform, Cluster, Call, update_escalation, hour,
}
use k8s4claw.Controller.Ops.{is_recent, reconcile}

abbrev pub is_audit_phase : EscalationPhase → Bool
is_audit_phase auto_executed = true
is_audit_phase _ = false

-- An audit record of the claw is completed.
abbrev pub is_audit : Cluster → String → Call → Bool
is_audit w name (update_escalation e) =
    is_audit_phase e.phase && (str_eq e.claw_ref name && w.update_status e)
is_audit w name _ = false

-- The number of actions on the claw that the calls record.
abbrev pub audits : Cluster → String → List Call → ℕ
audits w name calls = length (keep (is_audit w name) calls)

-- The times of the actions on the claw that the reconciliations record, behind earlier ones.
abbrev pub action_times : Platform → String → List Cluster → Ops → List ℕ → List ℕ
action_times p name [] ops earlier = earlier
action_times p name (w ∷ ws) ops earlier =
    action_times p name ws (reconcile p w ops).ops
      (replicate (audits w name (reconcile p w ops).calls) w.now ++ earlier)

-- In the hour up to the time.
abbrev pub in_hour : ℕ → ℕ → Bool
in_hour t u = leb u t && ltb t (u + hour)

-- Each reconciliation reads a clock that is not earlier than the one before.
abbrev pub IsMonotone : ℕ → List Cluster → Type 0
IsMonotone last [] = Unit
IsMonotone last (w ∷ ws) = (last ≤ w.now) × IsMonotone w.now ws

-- The controller's times agree with those of the past from its clock on, and the budget holds.
pub record Within (last max : ℕ) (times past : List ℕ) : Type 0 where
  pub agrees :
      (t : ℕ) → last ≤ t → length (keep (is_recent t) times) ≡ length (keep (is_recent t) past)
  pub bounded : (t : ℕ) → length (keep (in_hour t) past) ≤ max

-- What one reconciliation does to the times of a claw: nothing, or the old ones go, or one action
-- is recorded within the budget.
pub data Step (now : ℕ) (before after : List ℕ) (max count : ℕ) : Type 0 where
  same : after ≡ before → count ≡ 0 → Step now before after max count
  pruned : after ≡ keep (is_recent now) before → count ≡ 0 → Step now before after max count
  counted :
      after ≡ keep (is_recent now) before ++ (now ∷ [])
      → count ≡ 1
      → leb max (length (keep (is_recent now) before)) ≡ false
      → Step now before after max count

recent_later : (now t : ℕ) → now ≤ t → (u : ℕ) → is_recent t u ≡ true → is_recent now u ≡ true
unfolding is_recent
recent_later now t h u r = ground arith

hour_recent : (t u : ℕ) → in_hour t u ≡ true → is_recent t u ≡ true
unfolding is_recent
hour_recent t u r = ground arith

-- An hour that ends before the new action is as it was.
keep_earlier :
    (now t : ℕ) (past : List ℕ)
    → leb now t ≡ false
    → keep (in_hour t) (now ∷ past) ≡ keep (in_hour t) past
keep_earlier now t past h = rw h refl

pruned_agrees :
    (last now t max : ℕ) (times past : List ℕ)
    → Within last max times past
    → last ≤ now
    → now ≤ t
    → length (keep (is_recent t) (keep (is_recent now) times)) ≡ length (keep (is_recent t) past)
pruned_agrees last now t max times past inv le later =
    ap length (keep-keep (is_recent t) (is_recent now) times (recent_later now t later))
    ∙ inv.agrees t (omega arith)

counted_agrees :
    (last now t max : ℕ) (times past : List ℕ)
    → Within last max times past
    → last ≤ now
    → now ≤ t
    → length (keep (is_recent t) (keep (is_recent now) times ++ (now ∷ [])))
      ≡ length (keep (is_recent t) (now ∷ past))
counted_agrees last now t max times past inv le later =
    length-keep-append (is_recent t) (keep (is_recent now) times) (now ∷ [])
    ∙ ground (arith, pruned_agrees last now t max times past inv le later)

counted_bounded :
    (last now t max : ℕ) (times past : List ℕ)
    → Within last max times past
    → last ≤ now
    → leb max (length (keep (is_recent now) times)) ≡ false
    → length (keep (in_hour t) (now ∷ past)) ≤ max
counted_bounded last now t max times past inv le free = elim (Bool-cases (leb now t)) [
  | inl late ↦ ground (
    arith,
    late,
    inv.agrees now le,
    length-keep_mono (in_hour t) (is_recent t) past (hour_recent t),
    length-keep_mono (is_recent t) (is_recent now) past (recent_later now t (leb→le now t late)),
  )
  | inr early ↦ rw (ap length (keep_earlier now t past early)) (inv.bounded t)
]

pub Step-Within :
    (last now max count : ℕ) (times times' past : List ℕ)
    → last ≤ now
    → Step now times times' max count
    → Within last max times past
    → Within now max times' (replicate count now ++ past)
Step-Within last now max count times times' past le (same e c) inv =
    rw (e, c) (record { agrees = λ t later. inv.agrees t (omega arith); bounded = inv.bounded })
Step-Within last now max count times times' past le (pruned e c) inv =
    rw (e, c)
      (record {
        agrees = λ t later. pruned_agrees last now t max times past inv le later;
        bounded = inv.bounded;
      })
Step-Within last now max count times times' past le (counted e c free) inv =
    rw (e, c)
      (record {
        agrees = λ t later. counted_agrees last now t max times past inv le later;
        bounded = λ t. counted_bounded last now t max times past inv le free;
      })
