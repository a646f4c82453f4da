-- ===== src/Controller/Ops/Expiry.antt =====
-- The collection of finished escalations (internal/controller/clawops_controller.go).
use k8s4claw.Base.{
  ℕ, ◌+◌, ◌*◌, ◌<◌, ◌≡◌, refl, sym, ap, true, false, inl, inr, none, some, Option, List, [], ◌∷◌,
  ◌⊎◌, ◌∙◌, arith, Bool-cases, ℤ, pos, negsuc, str_eq, eq_refl, eq_iff,
}
use k8s4claw.Controller.Ops.Types.{
  EscalationPhase, unset, pending, auto_executed, analyzing, proposed, awaiting_approval, approved,
  executed, rejected, failed, is_terminal_phase, Escalation, Ops, Claw, Cluster, Call,
  delete_escalation, second,
}
use k8s4claw.Controller.Ops.{is_expired, is_past, ttl_of, gc_expired, gc_expired_escalations}

-- The phases that end an escalation.
abbrev pub IsFinished : EscalationPhase → Type 0
IsFinished p = (p ≡ auto_executed) ⊎ ((p ≡ executed) ⊎ ((p ≡ rejected) ⊎ (p ≡ failed)))

-- More than a number of seconds, which may be negative, lies between the creation and now.
abbrev pub IsOlder : ℕ → ℕ → ℤ → Type 0
IsOlder now created (pos ttl) = created + ttl * second < now
IsOlder now created (negsuc n) = created < now + (n + 1) * second

-- The escalation's own time to live, or the configured one.
abbrev pub lifetime : ℤ → Option ℤ → ℤ
lifetime default none = default
lifetime default (some own) = own

-- A finished escalation of the claw that is past its time, counted from its creation.
abbrev pub Expired : ℕ → Ops → Claw → Escalation → Type 0
Expired now ops claw esc =
    (esc.claw_ref ≡ claw.name)
    × IsFinished esc.phase
    × IsOlder now esc.created (lifetime ops.config.escalation_ttl esc.ttl_seconds_after_finished)

-- A deletion for each expired escalation, once each and in the order of the list, and no other call.
pub data Deletes (now : ℕ) (ops : Ops) (claw : Claw) : List Escalation → List Call → Type 0 where
  ends : Deletes now ops claw [] []
  deletes :
      (esc : Escalation) (escs : List Escalation) (calls : List Call)
      → Expired now ops claw esc
      → Deletes now ops claw escs calls
      → Deletes now ops claw (esc ∷ escs) (delete_escalation esc ∷ calls)
  keeps :
      (esc : Escalation) (escs : List Escalation) (calls : List Call)
      → ¬ Expired now ops claw esc
      → Deletes now ops claw escs calls
      → Deletes now ops claw (esc ∷ escs) calls

IsFinished-yes : (p : EscalationPhase) → is_terminal_phase p ≡ true → IsFinished p
unfolding is_terminal_phase
IsFinished-yes auto_executed h = inl refl
IsFinished-yes executed h = inr (inl refl)
IsFinished-yes rejected h = inr (inr (inl refl))
IsFinished-yes failed h = inr (inr (inr refl))
IsFinished-yes unset h = absurd (ground (arith, h))
IsFinished-yes pending h = absurd (ground (arith, h))
IsFinished-yes analyzing h = absurd (ground (arith, h))
IsFinished-yes proposed h = absurd (ground (arith, h))
IsFinished-yes awaiting_approval h = absurd (ground (arith, h))
IsFinished-yes approved h = absurd (ground (arith, h))

IsFinished-test : (p : EscalationPhase) → IsFinished p → is_terminal_phase p ≡ true
unfolding is_terminal_phase
IsFinished-test p (inl h) = ap is_terminal_phase h
IsFinished-test p (inr (inl h)) = ap is_terminal_phase h
IsFinished-test p (inr (inr (inl h))) = ap is_terminal_phase h
IsFinished-test p (inr (inr (inr h))) = ap is_terminal_phase h

IsOlder-yes : (now created : ℕ) (ttl : ℤ) → is_past now created ttl ≡ true → IsOlder now created ttl
unfolding is_past
IsOlder-yes now created (pos n) h = ground (arith, h)
IsOlder-yes now created (negsuc n) h = ground (arith, h)

IsOlder-test :
    (now created : ℕ) (ttl : ℤ) → IsOlder now created ttl → is_past now created ttl ≡ true
unfolding is_past
IsOlder-test now created (pos n) h = ground (arith, h)
IsOlder-test now created (negsuc n) h = ground (arith, h)

ttl_of_lem :
    (ops : Ops) (esc : Escalation) (own : Option ℤ)
    → esc.ttl_seconds_after_finished ≡ own
    → ttl_of ops esc ≡ lifetime ops.config.escalation_ttl own
unfolding ttl_of
ttl_of_lem ops esc none q = rw (q, ttl_of) refl
ttl_of_lem ops esc (some t) q = rw (q, ttl_of) refl

ttl_is :
    (ops : Ops) (esc : Escalation)
    → ttl_of ops esc ≡ lifetime ops.config.escalation_ttl esc.ttl_seconds_after_finished
ttl_is ops esc = ttl_of_lem ops esc esc.ttl_seconds_after_finished refl

Expired-yes :
    (now : ℕ) (ops : Ops) (claw : Claw) (esc : Escalation)
    → is_expired now ops claw esc ≡ true
    → Expired now ops claw esc
unfolding is_expired
Expired-yes now ops claw esc h = (
  (eq_iff esc.claw_ref claw.name).0 (ground (arith, h)),
  IsFinished-yes esc.phase (ground (arith, h)),
  IsOlder-yes now esc.created (lifetime ops.config.escalation_ttl esc.ttl_seconds_after_finished)
      (ap (is_past now esc.created) (sym (ttl_is ops esc)) ∙ ground (arith, h)),
)

Expired-test :
    (now : ℕ) (ops : Ops) (claw : Claw) (esc : Escalation)
    → Expired now ops claw esc
    → is_expired now ops claw esc ≡ true
unfolding is_expired
Expired-test now ops claw esc (own, over, old) =
    let same : str_eq esc.claw_ref claw.name ≡ true =
      ap (λ n. str_eq n claw.name) own ∙ eq_refl claw.name in
    let ended = IsFinished-test esc.phase over in
    let past =
      ap (is_past now esc.created) (ttl_is ops esc)
      ∙ IsOlder-test now esc.created
          (lifetime ops.config.escalation_ttl esc.ttl_seconds_after_finished) old in
    ground (arith, same, ended, past)

gc_expired-Deletes :
    (w : Cluster) (ops : Ops) (claw : Claw) (escs : List Escalation)
    → ((esc : Escalation) → w.delete esc ≡ true)
    → Deletes w.now ops claw escs (gc_expired w ops claw escs).calls
      × ((gc_expired w ops claw escs).is_error ≡ false)
unfolding gc_expired
gc_expired-Deletes w ops claw [] ok = (ends, refl)
gc_expired-Deletes w ops claw (esc ∷ escs) ok =
    let rest = gc_expired-Deletes w ops claw escs ok in
    let after = (gc_expired w ops claw escs).calls in
    elim (Bool-cases (is_expired w.now ops claw esc)) [
      | inr young ↦
          rw (young, gc_expired)
            (
              keeps esc escs after (λ e. ground (arith, young, Expired-test w.now ops claw esc e))
                  rest.0,
              rest.1,
            )
      | inl old ↦
          rw (old, gc_expired, ok esc)
            (deletes esc escs after (Expired-yes w.now ops claw esc old) rest.0, rest.1)
    ]

-- If the list is read and no deletion fails, the collection deletes exactly the escalations of the
-- claw that are finished and past their time to live, counted from their creation, once each and in
-- the order of the list: one without a time of its own has the configured one.
pub gc_expired_escalations-Deletes :
    (w : Cluster) (ops : Ops) (claw : Claw) (escs : List Escalation)
    → w.listed_for_gc ≡ some escs
    → ((esc : Escalation) → w.delete esc ≡ true)
    → Deletes w.now ops claw escs (gc_expired_escalations w ops claw).calls
      × ((gc_expired_escalations w ops claw).is_error ≡ false)
unfolding gc_expired_escalations
gc_expired_escalations-Deletes w ops claw escs listed ok =
    rw (listed, gc_expired_escalations) (gc_expired-Deletes w ops claw escs ok)
