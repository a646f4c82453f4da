-- ===== src/Ipc/Router/Backlog.antt =====
-- The channel's ring buffer under inbound messages.
use k8s4claw.Base.{
  ℕ, ◌+◌, ◌-◌, ◌≤◌, ◌≡◌, ◌≢◌, ap, ◌∙◌, Bool, List, true, false, some, arith, lookup, lookup-insert,
  eq_refl, if◌then◌else◌, ◌==◌,
}
use k8s4claw.Ipc.Message.{Message, is_control}
use k8s4claw.Ipc.Float.{Float}
use k8s4claw.Ipc.Ring.{RingBuffer, is_normal, push, pop}
use k8s4claw.Ipc.Ring.Watermark.{IsMarked}
use k8s4claw.Ipc.Ring.Bounds.{IsValid, push-IsValid, pop-IsValid}
use k8s4claw.Ipc.Ring.Refine.{Holds, enqueue, dequeue, push_refines, pop_refines}
use k8s4claw.Ipc.Wal.{WalJson}
use k8s4claw.Ipc.Dlq.{Bolt}
use k8s4claw.Ipc.Router.{
  SidecarConn, Env, Router, handle_inbound, log_append, buffer_push, pushed, buffer_pop, popped,
  forward, settle, log_complete, schedule_retry, retry, give_up,
}

add_sub_one : (n : ℕ) → n + 1 - 1 ≡ n
add_sub_one n = omega arith

module _ (fl : Float) {A : Type 0} where
  open fl use {F, le, ratio}

  count-push :
      (rb : RingBuffer F A) (x : A)
      → (push fl rb x).0.count ≡ (if rb.count == rb.size then rb.count else rb.count + 1)
  unfolding push
  count-push rb x = ground arith

  push_room :
      (rb : RingBuffer F A) (x : A)
      → rb.count ≢ rb.size
      → is_normal rb.state ≡ false
      → ((push fl rb x).0.count ≡ rb.count + 1)
        × ((push fl rb x).0.size ≡ rb.size)
        × ((push fl rb x).0.low_mark ≡ rb.low_mark)
        × (is_normal (push fl rb x).0.state ≡ false)
  unfolding push
  push_room rb x room s = ground arith

  count-pop : (rb : RingBuffer F A) → (pop fl rb).0.count ≡ rb.count - 1
  unfolding pop
  count-pop rb = ground arith

  pop_busy :
      (rb : RingBuffer F A)
      → rb.count ≢ 0
      → is_normal rb.state ≡ false
      → le (ratio (rb.count - 1) rb.size) rb.low_mark ≡ false
      → ((pop fl rb).0.count ≡ rb.count - 1) × (is_normal (pop fl rb).0.state ≡ false)
  unfolding pop
  pop_busy rb some_left s low = ground arith

  -- A message that passes through a buffer with room leaves its count as it was, and does not
  -- bring a slow buffer back to normal.
  push-pop_slow :
      (rb : RingBuffer F A) (x : A)
      → rb.count ≢ rb.size
      → IsMarked fl rb
      → is_normal rb.state ≡ false
      → ((pop fl (push fl rb x).0).0.count ≡ rb.count)
        × (is_normal (pop fl (push fl rb x).0).0.state ≡ false)
  push-pop_slow rb x room m s =
      let p = push_room rb x room s in
      let low : le (ratio ((push fl rb x).0.count - 1) (push fl rb x).0.size)
            (push fl rb x).0.low_mark
          ≡ false =
        rw (p.0, p.1, p.2) (rw (add_sub_one rb.count) (ground (arith, m.busy))) in
      let q = pop_busy (push fl rb x).0 (ground (arith, p.0)) p.3 low in
      (q.0 ∙ ground (arith, p.0), q.1)

module _ (fl : Float) (json : WalJson) (bolt : Bolt) (env : Env) (from : SidecarConn)
    (msg : Message) where
  abbrev R : Type 0
  R = Router fl.F json.Line bolt.Bucket

  -- The other steps leave the buffers alone.
  schedule_retry_buffers : (r : R) → (schedule_retry fl json bolt env msg r).buffers ≡ r.buffers
  unfolding schedule_retry retry give_up
  schedule_retry_buffers r = ground arith

  log_complete_buffers : (r : R) → (log_complete fl json bolt env msg r).buffers ≡ r.buffers
  unfolding log_complete
  log_complete_buffers r = ground arith

  log_append_buffers : (r : R) → (log_append fl json bolt env msg r).buffers ≡ r.buffers
  unfolding log_append
  log_append_buffers r = ground arith

  buffer_push_lem :
      (r : R) (rb : RingBuffer fl.F Message)
      → lookup from.channel r.buffers ≡ some rb
      → lookup from.channel (buffer_push fl json bolt env from msg r).buffers
        ≡ some (push fl rb msg).0
  unfolding buffer_push pushed
  buffer_push_lem r rb has = ground (
    arith,
    has,
    eq_refl from.channel,
    lookup-insert from.channel from.channel (push fl rb msg).0 r.buffers,
  )

  buffer_pop_lem :
      (r : R) (rb : RingBuffer fl.F Message)
      → lookup from.channel r.buffers ≡ some rb
      → lookup from.channel (buffer_pop fl json bolt env from r).buffers ≡ some (pop fl rb).0
  unfolding buffer_pop popped
  buffer_pop_lem r rb has = ground (
    arith,
    has,
    eq_refl from.channel,
    lookup-insert from.channel from.channel (pop fl rb).0 r.buffers,
  )

  -- Whether the bridge takes the message; without a bridge every message counts as taken.
  abbrev pub taken : R → Bool
  taken r = if r.bridged then env.bridge_takes msg else true

  forward_rest :
      (r : R)
      → ((forward fl json bolt env msg r).0.buffers ≡ r.buffers)
        × ((forward fl json bolt env msg r).1 ≡ taken r)
  unfolding forward
  forward_rest r = ground arith

  bridged_rest :
      (r : R)
      → (buffer_push fl json bolt env from msg (log_append fl json bolt env msg r)).bridged
        ≡ r.bridged
  unfolding buffer_push pushed log_append
  bridged_rest r = ground arith

  abbrev passed : RingBuffer fl.F Message → Bool → RingBuffer fl.F Message
  passed rb b = if b then (pop fl (push fl rb msg).0).0 else (push fl rb msg).0

  settle_buffer :
      (r : R) (rb : RingBuffer fl.F Message) (b : Bool)
      → lookup from.channel r.buffers ≡ some (push fl rb msg).0
      → lookup from.channel (settle fl json bolt env from msg (r, b)).buffers ≡ some (passed rb b)
  unfolding settle
  settle_buffer r rb true has =
      buffer_pop_lem (log_complete fl json bolt env msg r) (push fl rb msg).0
        (ap (λ m. lookup from.channel m) (log_complete_buffers r) ∙ has)
  settle_buffer r rb false has = ap (λ m. lookup from.channel m) (schedule_retry_buffers r) ∙ has

  -- A data message goes into its channel's buffer, and a message comes out if the bridge takes it.
  handle_inbound_buffer :
      (r : R) (rb : RingBuffer fl.F Message)
      → is_control msg ≡ false
      → lookup from.channel r.buffers ≡ some rb
      → lookup from.channel (handle_inbound fl json bolt env from msg r).buffers
        ≡ some (passed rb (taken r))
  unfolding handle_inbound
  handle_inbound_buffer r rb plain has =
      let r1 = log_append fl json bolt env msg r in
      let r2 = buffer_push fl json bolt env from msg r1 in
      let f = forward_rest r2 in
      let there =
        buffer_push_lem r1 rb (ap (λ m. lookup from.channel m) (log_append_buffers r) ∙ has) in
      rw (plain, handle_inbound)
        (settle_buffer (forward fl json bolt env msg r2).0 rb (forward fl json bolt env msg r2).1
            (ap (λ m. lookup from.channel m) f.0 ∙ there)
          ∙ ap (λ b. some (passed rb b))
              (f.1 ∙ ap (λ b. if b then env.bridge_takes msg else true) (bridged_rest r)))

  -- What a queue of at most `n` messages holds after the message: it goes to the end if there is
  -- room, and the oldest one is given up if the bridge takes the message.
  abbrev pub queued : ℕ → List Message → Bool → List Message
  queued n q true = (dequeue (enqueue n q msg).0).0
  queued n q false = (enqueue n q msg).0

  passed-Holds :
      (rb : RingBuffer fl.F Message) (q : List Message) (b : Bool)
      → IsValid rb
      → Holds rb q
      → IsValid (passed rb b) × Holds (passed rb b) (queued rb.size q b)
  passed-Holds rb q true v e =
      let v' = push-IsValid fl rb msg v in
      (
        pop-IsValid fl (push fl rb msg).0 v',
        (pop_refines fl (push fl rb msg).0 (enqueue rb.size q msg).0 v'
            (push_refines fl rb q msg v e).0).0,
      )
  passed-Holds rb q false v e = (push-IsValid fl rb msg v, (push_refines fl rb q msg v e).0)

  -- What a channel's buffer holds after a data message. The message goes behind the others, unless
  -- the buffer is full, which refuses it. If the bridge takes the message, or there is no bridge, the
  -- oldest message of the buffer is given up, whether this is the message or another one; if the
  -- bridge refuses it, all stay.
  pub backlog_content :
      (r : R) (rb : RingBuffer fl.F Message) (q : List Message)
      → is_control msg ≡ false
      → lookup from.channel r.buffers ≡ some rb
      → IsValid rb
      → Holds rb q
      → (rb' : RingBuffer fl.F Message) × (lookup from.channel
            (handle_inbound fl json bolt env from msg r).buffers
          ≡ some rb')
        × IsValid rb'
        × Holds rb' (queued rb.size q (taken r))
  backlog_content r rb q plain has v e =
      let (valid, holds) = passed-Holds rb q (taken r) v e in
      (passed rb (taken r), handle_inbound_buffer r rb plain has, valid, holds)

  -- A channel that was told to slow down and whose buffer has room is not told to resume by any
  -- data message, whether the bridge takes it or not: its buffer holds no fewer messages than
  -- before and stays slow.
  slow_stays :
      (r : R) (rb : RingBuffer fl.F Message)
      → is_control msg ≡ false
      → lookup from.channel r.buffers ≡ some rb
      → rb.count ≢ rb.size
      → IsMarked fl rb
      → is_normal rb.state ≡ false
      → (rb' : RingBuffer fl.F Message) × (lookup from.channel
            (handle_inbound fl json bolt env from msg r).buffers
          ≡ some rb')
        × (rb.count ≤ rb'.count)
        × (is_normal rb'.state ≡ false)
  slow_stays r rb plain has room m s =
      let (kept, still) = passed_slow (taken r) in
      (passed rb (taken r), handle_inbound_buffer r rb plain has, kept, still)
    where
      passed_slow :
          (b : Bool) → (rb.count ≤ (passed rb b).count) × (is_normal (passed rb b).state ≡ false)
      passed_slow true = let p = push-pop_slow fl rb msg room m s in (omega (arith, p.0), p.1)
      passed_slow false = let p = push_room fl rb msg room s in (omega (arith, p.0), p.3)
