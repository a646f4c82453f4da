-- ===== src/Ipc/Router/Inbound.antt =====
-- What becomes of a message that a sidecar sends.
use k8s4claw.Base.{
  ◌≤◌, ◌≡◌, ◌⊎◌, inl, inr, ap, ◌∙◌, String, Bool, true, false, none, some, arith, Bool-cases,
  lookup, str_eq, if◌then◌else◌,
}
use k8s4claw.Ipc.Message.{Message, is_control}
use k8s4claw.Ipc.Float.{Float}
use k8s4claw.Ipc.Wal.{WalEntry, WalJson, Wal, append, mark_complete, increment_attempts}
use k8s4claw.Ipc.Wal.Attempts.{lookup-append, increment_attempts-append, lookup-mark_complete}
use k8s4claw.Ipc.Dlq.{Bolt}
use k8s4claw.Ipc.Router.{
  SidecarConn, Env, Router, handle_inbound, log_append, buffer_push, pushed, buffer_pop, popped,
  forward, settle, log_complete, schedule_retry, retry,
}

module _ (fl : Float) (json : WalJson) (bolt : Bolt) (env : Env) (from : SidecarConn)
    (msg : Message) where
  abbrev R : Type 0
  R = Router fl.F json.Line bolt.Bucket

  -- The buffer's steps leave the log, the queue and the bridge alone.
  buffer_push_rest :
      (r : R)
      → ((buffer_push fl json bolt env from msg r).wal ≡ r.wal)
        × ((buffer_push fl json bolt env from msg r).dlq ≡ r.dlq)
        × ((buffer_push fl json bolt env from msg r).bridged ≡ r.bridged)
  unfolding buffer_push pushed
  buffer_push_rest r = ground arith

  buffer_pop_rest :
      (r : R)
      → ((buffer_pop fl json bolt env from r).wal ≡ r.wal)
        × ((buffer_pop fl json bolt env from r).dlq ≡ r.dlq)
  unfolding buffer_pop popped
  buffer_pop_rest r = ground arith

  -- The log after the first step of a data message.
  abbrev logged : Wal json.Line → Wal json.Line
  logged w = (append json env.append_ok env.ts msg w).0

  module _ (r : R) (w : Wal json.Line) (has : r.wal ≡ some w) where
    -- The router when the message has been logged, buffered and offered to the bridge.
    abbrev offered : R × Bool
    offered =
        forward fl json bolt env msg
          (buffer_push fl json bolt env from msg (log_append fl json bolt env msg r))

    offered_rest :
        (offered.0.wal ≡ some (logged w))
        × (offered.0.dlq ≡ r.dlq)
        × (offered.1 ≡ (if r.bridged then env.bridge_takes msg else true))
    unfolding forward log_append
    offered_rest = ground (arith, buffer_push_rest (log_append fl json bolt env msg r))

    handle_inbound-settle :
        is_control msg ≡ false
        → handle_inbound fl json bolt env from msg r ≡ settle fl json bolt env from msg offered
    unfolding handle_inbound
    handle_inbound-settle plain = ground arith

  schedule_retry_early :
      (r : R) (v : Wal json.Line)
      → r.wal ≡ some v
      → (increment_attempts json env.increment_ok env.ts msg.id v).1 ≤ 4
      → ((schedule_retry fl json bolt env msg r).wal
          ≡ some (increment_attempts json env.increment_ok env.ts msg.id v).0)
        × ((schedule_retry fl json bolt env msg r).dlq ≡ r.dlq)
  unfolding schedule_retry retry
  schedule_retry_early r v has early = ground arith

  log_complete_rest :
      (r : R) (v : Wal json.Line)
      → r.wal ≡ some v
      → ((log_complete fl json bolt env msg r).wal
          ≡ some (mark_complete json env.complete_ok env.ts msg.id v).0)
        × ((log_complete fl json bolt env msg r).dlq ≡ r.dlq)
  unfolding log_complete
  log_complete_rest r v has = ground arith

  settle_taken :
      (r : R) (v : Wal json.Line)
      → r.wal ≡ some v
      → ((settle fl json bolt env from msg (r, true)).wal
          ≡ some (mark_complete json env.complete_ok env.ts msg.id v).0)
        × ((settle fl json bolt env from msg (r, true)).dlq ≡ r.dlq)
  unfolding settle
  settle_taken r v has =
      let l = log_complete_rest r v has in
      let p = buffer_pop_rest (log_complete fl json bolt env msg r) in (p.0 ∙ l.0, p.1 ∙ l.1)

  settle_refused :
      (r : R) (v : Wal json.Line)
      → r.wal ≡ some v
      → (increment_attempts json env.increment_ok env.ts msg.id v).1 ≤ 4
      → ((settle fl json bolt env from msg (r, false)).wal
          ≡ some (increment_attempts json env.increment_ok env.ts msg.id v).0)
        × ((settle fl json bolt env from msg (r, false)).dlq ≡ r.dlq)
  unfolding settle
  settle_refused r v has early = schedule_retry_early r v has early

  handle_inbound-offered :
      (r : R) (w : Wal json.Line) (b : Bool) (has : r.wal ≡ some w)
      → is_control msg ≡ false
      → (offered r w has).1 ≡ b
      → handle_inbound fl json bolt env from msg r
        ≡ settle fl json bolt env from msg ((offered r w has).0, b)
  handle_inbound-offered r w b has plain taken =
      handle_inbound-settle r w has plain
      ∙ ap (λ t. settle fl json bolt env from msg ((offered r w has).0, t)) taken

  first_retry :
      (w : Wal json.Line)
      → (append json env.append_ok env.ts msg w).1 ≡ true
      → let (v, attempts, done) =
          increment_attempts json env.increment_ok env.ts msg.id (logged w) in
        ((attempts ≡ 0) ⊎ (attempts ≡ 2))
        × (e : WalEntry) × (lookup msg.id v.entries ≡ some e)
        × (e.attempts ≡ 2)
        × (e.msg ≡ some msg)
  first_retry w appended =
      increment_attempts-append json env.append_ok env.ts msg w env.increment_ok appended

  -- A data message that the log takes, offered to a bridge that takes it and completed, is
  -- pending no more; every other entry of the log is as it was.
  pub delivered_completes :
      (r : R) (w : Wal json.Line)
      → is_control msg ≡ false
      → r.wal ≡ some w
      → r.bridged ≡ true
      → env.bridge_takes msg ≡ true
      → (append json env.append_ok env.ts msg w).1 ≡ true
      → (mark_complete json env.complete_ok env.ts msg.id
          (append json env.append_ok env.ts msg w).0).1
        ≡ true
      → (v : Wal json.Line) × ((handle_inbound fl json bolt env from msg r).wal ≡ some v)
        × ((id : String)
            → lookup id v.entries ≡ (if str_eq msg.id id then none else lookup id w.entries))
  delivered_completes r w plain has bridged takes appended completed =
      let o = offered_rest r w has in
      let taken : (offered r w has).1 ≡ true = rw o.2 (ground arith) in
      (
        (mark_complete json env.complete_ok env.ts msg.id (logged w)).0,
        ap (λ t. t.wal) (handle_inbound-offered r w true has plain taken)
            ∙ (settle_taken (offered r w has).0 (logged w) o.0).0,
        λ id.
            lookup-mark_complete json env.complete_ok env.ts msg.id (logged w) id completed
            ∙ ground (arith, lookup-append json env.append_ok env.ts msg w id appended),
      )

  -- A data message that the log takes and the bridge refuses stays pending, with the message in
  -- its entry and two attempts counted, whatever the log's second write does.
  pub refused_stays_pending :
      (r : R) (w : Wal json.Line)
      → is_control msg ≡ false
      → r.wal ≡ some w
      → r.bridged ≡ true
      → env.bridge_takes msg ≡ false
      → (append json env.append_ok env.ts msg w).1 ≡ true
      → (v : Wal json.Line) × (e : WalEntry) × ((handle_inbound fl json bolt env from msg r).wal
          ≡ some v)
        × (lookup msg.id v.entries ≡ some e)
        × (e.attempts ≡ 2)
        × (e.msg ≡ some msg)
  refused_stays_pending r w plain has bridged refuses appended =
      let o = offered_rest r w has in
      let refused : (offered r w has).1 ≡ false = rw o.2 (ground arith) in
      let (count, e, entry, twice, kept) = first_retry w appended in
      (
        (increment_attempts json env.increment_ok env.ts msg.id (logged w)).0,
        e,
        ap (λ t. t.wal) (handle_inbound-offered r w false has plain refused)
            ∙ (settle_refused (offered r w has).0 (logged w) o.0 (ground (arith, count))).0,
        entry,
        twice,
        kept,
      )

  -- One handler of a data message that the log takes leaves the dead letter queue alone, whatever
  -- the bridge does and whichever of the later writes of the log succeed.
  pub dlq_untouched :
      (r : R) (w : Wal json.Line)
      → is_control msg ≡ false
      → r.wal ≡ some w
      → (append json env.append_ok env.ts msg w).1 ≡ true
      → (handle_inbound fl json bolt env from msg r).dlq ≡ r.dlq
  dlq_untouched r w plain has appended =
      let o = offered_rest r w has in
      let count = (first_retry w appended).0 in
      elim (Bool-cases (offered r w has).1) [
        | inl taken ↦
            ap (λ t. t.dlq) (handle_inbound-offered r w true has plain taken)
            ∙ (settle_taken (offered r w has).0 (logged w) o.0).1
            ∙ o.1
        | inr refused ↦
            ap (λ t. t.dlq) (handle_inbound-offered r w false has plain refused)
            ∙ (settle_refused (offered r w has).0 (logged w) o.0 (ground (arith, count))).1
            ∙ o.1
      ]
