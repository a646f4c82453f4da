-- ===== src/Controller/Ops/Calls.antt =====
-- What holds of every call that the operations controller makes, part by part
-- (internal/controller/clawops_controller.go).
use k8s4claw.Base.{
  ◌≡◌, String, true, inl, inr, List, [], ◌∷◌, All, All-append, Bool-cases, Option-cases, Dict,
}
use k8s4claw.Rules.Types.{Signal, Rule}
use k8s4claw.Controller.Ops.Types.{
  Escalation, Ops, Claw, Platform, Cluster, Call, patch_claw, create_escalation, update_escalation,
  delete_escalation, event, pending, Created,
}
use k8s4claw.Controller.Ops.{
  escalate, escalate_all, auto_execute, finish_execute, process_approved, gc_expired,
  new_escalation, with_created, with_intent, is_due, is_expired, executed_at_time, rule_intent,
  audited,
}

module _ (Good : Call → Type 0) (w : Cluster) where
  -- The two calls of an escalation.
  abbrev pub Escalates : Claw → Ops → Signal → Type 0
  Escalates claw ops sig =
      let esc = new_escalation w.now claw ops sig in
      Good (create_escalation esc)
      × ((c : Created) → Good (update_escalation (record (with_created c esc) { phase = pending })))

  pub escalate-All :
      (claw : Claw) (ops : Ops) (sig : Signal)
      → Escalates claw ops sig
      → All Good (escalate w claw ops sig).calls
  unfolding escalate
  escalate-All claw ops sig (h, k) =
      elim (Option-cases (w.create (new_escalation w.now claw ops sig))) [
        | inl lost ↦ rw (lost, escalate, All) (h, tt)
        | inr (c, made) ↦ rw (made, escalate, All) (h, (k c, tt))
      ]

  pub escalate_all-All :
      (claw : Claw) (ops : Ops) (sigs : List Signal)
      → All (Escalates claw ops) sigs
      → All Good (escalate_all w claw ops sigs)
  unfolding escalate_all
  escalate_all-All claw ops [] h = tt
  escalate_all-All claw ops (sig ∷ sigs) (h, hs) =
      All-append Good (escalate w claw ops sig).calls (escalate_all w claw ops sigs)
        (escalate-All claw ops sig h) (escalate_all-All claw ops sigs hs)

  -- The calls for an approved escalation, whatever the annotations of the object are by then.
  abbrev pub Executes : Claw → Escalation → Type 0
  Executes claw esc =
      (m : Dict String)
      → is_due (record claw { annotations = m }) esc ≡ true
      → Good (patch_claw (with_intent esc.proposed_action (record claw { annotations = m })))
        × Good (update_escalation (executed_at_time w.now esc))

  pub process_approved-All :
      (claw : Claw) (escs : List Escalation)
      → ((r : String) → Good (event r))
      → All (Executes claw) escs
      → All Good (process_approved w claw escs).calls
  unfolding process_approved
  process_approved-All claw [] ev h = tt
  process_approved-All claw (esc ∷ escs) ev (h, hs) = elim (Bool-cases (is_due claw esc)) [
    | inr skip ↦ rw (skip, process_approved) (process_approved-All claw escs ev hs)
    | inl due ↦
        let both = h claw.annotations due in
        elim (Option-cases (w.patch (with_intent esc.proposed_action claw))) [
          | inl lost ↦ rw (due, process_approved, lost, All) (both.0, tt)
          | inr (annotations, ok) ↦
              elim (Bool-cases (w.update_status (executed_at_time w.now esc))) [
                | inr stale ↦ rw (due, process_approved, ok, stale, All) (both.0, (both.1, tt))
                | inl good ↦
                    rw (due, process_approved, ok, good, All)
                      (
                        both.0,
                        (
                          both.1,
                          (
                            ev "ApprovedRemediation",
                            process_approved-All (record claw { annotations = annotations }) escs ev
                                hs,
                          ),
                        ),
                      )
              ]
        ]
  ]

  pub gc_expired-All :
      (ops : Ops) (claw : Claw) (escs : List Escalation)
      → All (λ esc. is_expired w.now ops claw esc ≡ true → Good (delete_escalation esc)) escs
      → All Good (gc_expired w ops claw escs).calls
  unfolding gc_expired
  gc_expired-All ops claw [] h = tt
  gc_expired-All ops claw (esc ∷ escs) (h, hs) = elim (Bool-cases (is_expired w.now ops claw esc)) [
    | inr skip ↦ rw (skip, gc_expired) (gc_expired-All ops claw escs hs)
    | inl due ↦ elim (Bool-cases (w.delete esc)) [
      | inl ok ↦ rw (due, gc_expired, ok, All) (h due, gc_expired-All ops claw escs hs)
      | inr lost ↦ rw (due, gc_expired, lost, All) (h due, tt)
    ]
  ]

  -- The calls of a rule that is executed, and of the escalation if that fails.
  abbrev pub Runs : Platform → Claw → Ops → Signal → Rule → Type 0
  Runs p claw ops sig rule =
      Good (patch_claw (with_intent (p.marshal (rule_intent w.now rule)) claw))
      × ((c : Created)
          → Good (
              update_escalation
                (audited p w.now claw rule (with_created c (new_escalation w.now claw ops sig)))))
      × Escalates claw ops sig

  finish_execute-All :
      (p : Platform) (claw : Claw) (ops : Ops) (rule : Rule) (before : List Call) (esc : Escalation)
      → ((r : String) → Good (event r))
      → Good (update_escalation (audited p w.now claw rule esc))
      → All Good before
      → All Good (finish_execute p w claw ops rule before esc).calls
  unfolding finish_execute
  finish_execute-All p claw ops rule before esc ev audit h =
      elim (Bool-cases (w.update_status (audited p w.now claw rule esc))) [
        | inl ok ↦
            rw (ok, finish_execute)
              (All-append Good before
                (update_escalation (audited p w.now claw rule esc) ∷ event "AutoRemediation" ∷ []) h
                (audit, (ev "AutoRemediation", tt)))
        | inr stale ↦
            rw (stale, finish_execute)
              (All-append Good before (update_escalation (audited p w.now claw rule esc) ∷ []) h
                (audit, tt))
      ]

  pub auto_execute-All :
      (p : Platform) (claw : Claw) (ops : Ops) (sig : Signal) (rule : Rule)
      → ((r : String) → Good (event r))
      → Runs p claw ops sig rule
      → All Good (auto_execute p w claw ops sig rule).calls
  unfolding auto_execute
  auto_execute-All p claw ops sig rule ev (patch, audit, (make, note)) =
      let json = p.marshal (rule_intent w.now rule) in
      let esc = new_escalation w.now claw ops sig in
      elim (Option-cases (w.patch (with_intent json claw))) [
        | inl lost ↦ rw (lost, auto_execute, All) (patch, tt)
        | inr (annotations, done) ↦ elim (Option-cases (w.create esc)) [
          | inl none_made ↦ rw (done, auto_execute, none_made, All) (patch, (make, tt))
          | inr (c, made) ↦
              rw (done, auto_execute, made)
                (finish_execute-All p claw ops rule
                  (patch_claw (with_intent json claw) ∷ create_escalation esc ∷ [])
                  (with_created c esc) ev (audit c) (patch, (make, tt)))
        ]
      ]
