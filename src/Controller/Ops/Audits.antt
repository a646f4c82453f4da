-- ===== src/Controller/Ops/Audits.antt =====
-- The times of the actions of a claw, and the calls that record one
-- (internal/controller/clawops_controller.go).
use k8s4claw.Base.{
  ℕ, ◌+◌, ◌≡◌, refl, ap, ap₂, ◌∙◌, String, Bool, true, false, inl, inr, Option, some, List, [], ◌∷◌,
  ◌++◌, arith, keep, All, if◌then◌else◌, str_eq, Bool-cases, Option-cases, lookup, insert,
  lookup-insert, length-keep-append, length-keep-none, All-constant, eq_refl,
}
use k8s4claw.Rules.Types.{Signal, Rule}
use k8s4claw.Controller.Ops.Types.{
  Escalation, Ops, Claw, Platform, Cluster, Call, delete_escalation, update_escalation, event,
}
use k8s4claw.Controller.Ops.{
  or_empty, actions_of, is_recent, prune_actions, record_action, escalate_all,
  process_approved_escalations, gc_expired_escalations, process_approved, gc_expired, is_expired,
  audited,
}
use k8s4claw.Controller.Ops.Calls.{
  Escalates, Executes, escalate_all-All, process_approved-All, gc_expired-All,
}
use k8s4claw.Controller.Ops.RateLimit.{audits, is_audit}

-- The times of a claw once those of a claw were replaced.
or_empty-if :
    (b : Bool) (times : List ℕ) (o : Option (List ℕ))
    → or_empty (if b then some times else o) ≡ (if b then times else or_empty o)
unfolding or_empty
or_empty-if true times o = refl
or_empty-if false times o = refl

actions_insert :
    (claw name : String) (times : List ℕ) (ops : Ops)
    → actions_of name (record ops { action_counts = insert claw times ops.action_counts })
      ≡ (if str_eq claw name then times else actions_of name ops)
unfolding actions_of
actions_insert claw name times ops =
    ap or_empty (lookup-insert claw name times ops.action_counts)
    ∙ or_empty-if (str_eq claw name) times (lookup name ops.action_counts)

if_same : (name : String) (a b : List ℕ) → (if str_eq name name then a else b) ≡ a
if_same name a b = rw (eq_refl name) refl

if_other :
    (claw name : String) (a b : List ℕ)
    → str_eq claw name ≡ false
    → (if str_eq claw name then a else b) ≡ b
if_other claw name a b other = rw other refl

pub actions_prune :
    (now : ℕ) (name : String) (ops : Ops)
    → actions_of name (prune_actions now name ops) ≡ keep (is_recent now) (actions_of name ops)
unfolding prune_actions
actions_prune now name ops =
    actions_insert name name (keep (is_recent now) (actions_of name ops)) ops
    ∙ if_same name (keep (is_recent now) (actions_of name ops)) (actions_of name ops)

pub actions_record :
    (now : ℕ) (name : String) (ops : Ops)
    → actions_of name (record_action now name ops) ≡ actions_of name ops ++ (now ∷ [])
unfolding record_action
actions_record now name ops =
    actions_insert name name (actions_of name ops ++ (now ∷ [])) ops
    ∙ if_same name (actions_of name ops ++ (now ∷ [])) (actions_of name ops)

pub actions_prune_other :
    (now : ℕ) (claw name : String) (ops : Ops)
    → str_eq claw name ≡ false
    → actions_of name (prune_actions now claw ops) ≡ actions_of name ops
unfolding prune_actions
actions_prune_other now claw name ops other =
    actions_insert claw name (keep (is_recent now) (actions_of claw ops)) ops
    ∙ if_other claw name (keep (is_recent now) (actions_of claw ops)) (actions_of name ops) other

pub actions_record_other :
    (now : ℕ) (claw name : String) (ops : Ops)
    → str_eq claw name ≡ false
    → actions_of name (record_action now claw ops) ≡ actions_of name ops
unfolding record_action
actions_record_other now claw name ops other =
    actions_insert claw name (actions_of claw ops ++ (now ∷ [])) ops
    ∙ if_other claw name (actions_of claw ops ++ (now ∷ [])) (actions_of name ops) other

module _ (w : Cluster) (name : String) where
  unfoldable pub Silent : Call → Type 0
  Silent c = is_audit w name c ≡ false

  audits-append : (a b : List Call) → audits w name (a ++ b) ≡ audits w name a + audits w name b
  audits-append a b = length-keep-append (is_audit w name) a b

  pub audits-Silent : (calls : List Call) → All Silent calls → audits w name calls ≡ 0
  unfolding Silent
  audits-Silent calls h = length-keep-none (is_audit w name) calls h

  pub every :
      (claw : Claw) (ops : Ops) (sigs : List Signal) → All (Escalates Silent w claw ops) sigs
  unfolding Silent
  every claw ops [] = tt
  every claw ops (sig ∷ sigs) = ((refl, λ c. refl), every claw ops sigs)

  pub approved_silent :
      (claw : Claw) → audits w name (process_approved_escalations w claw).calls ≡ 0
  unfolding process_approved_escalations Silent
  approved_silent claw = elim (Option-cases w.listed_for_approval) [
    | inl lost ↦ rw (lost, process_approved_escalations) refl
    | inr (escs, listed) ↦
        rw (listed, process_approved_escalations)
          (audits-Silent (process_approved w claw escs).calls (
            process_approved-All Silent w claw escs (λ r. refl)
              (All-constant (Executes Silent w claw) (λ esc m due. (refl, refl)) escs)))
  ]

  pub gc_silent :
      (ops : Ops) (claw : Claw) → audits w name (gc_expired_escalations w ops claw).calls ≡ 0
  unfolding gc_expired_escalations Silent
  gc_silent ops claw = elim (Option-cases w.listed_for_gc) [
    | inl lost ↦ rw (lost, gc_expired_escalations) refl
    | inr (escs, listed) ↦
        rw (listed, gc_expired_escalations)
          (audits-Silent (gc_expired w ops claw escs).calls (
            gc_expired-All Silent w ops claw escs (
              All-constant
                (λ esc. is_expired w.now ops claw esc ≡ true → Silent (delete_escalation esc))
                (λ esc due. refl) escs)))
  ]

  pub escalate_silent :
      (claw : Claw) (ops : Ops) (sigs : List Signal)
      → audits w name (escalate_all w claw ops sigs) ≡ 0
  escalate_silent claw ops sigs =
      audits-Silent (escalate_all w claw ops sigs)
        (escalate_all-All Silent w claw ops sigs (every claw ops sigs))

pub audit_counts :
    (p : Platform) (w : Cluster) (claw : Claw) (rule : Rule) (esc : Escalation) (r : String)
    → esc.claw_ref ≡ claw.name
    → w.update_status (audited p w.now claw rule esc) ≡ true
    → audits w claw.name (update_escalation (audited p w.now claw rule esc) ∷ event r ∷ []) ≡ 1
audit_counts p w claw rule esc r ref ok = rw (ok, ref, eq_refl claw.name) refl

pub audit_stale :
    (p : Platform) (w : Cluster) (claw : Claw) (rule : Rule) (esc : Escalation)
    → w.update_status (audited p w.now claw rule esc) ≡ false
    → audits w claw.name (update_escalation (audited p w.now claw rule esc) ∷ []) ≡ 0
audit_stale p w claw rule esc stale = elim (Bool-cases (str_eq esc.claw_ref claw.name)) [
  | inl own ↦ rw (stale, own) refl
  | inr other ↦ rw (stale, other) refl
]

pub audits_behind :
    (w : Cluster) (name : String) (before after : List Call)
    → audits w name before ≡ 0
    → audits w name (before ++ after) ≡ audits w name after
audits_behind w name before after quiet = audits-append w name before after ∙ omega (arith, quiet)

pub audits_sum :
    (w : Cluster) (name : String) (m n : ℕ) (before after : List Call)
    → audits w name before ≡ m
    → audits w name after ≡ n
    → audits w name (before ++ after) ≡ m + n
audits_sum w name m n before after h k = audits-append w name before after ∙ ap₂ (λ x y. x + y) h k
