-- ===== src/Sdk/Channel/Client/Throttle.antt =====
-- Backpressure: sdk/channel/client.go.
use k8s4claw.Base.{
  ℕ, suc, ◌<◌, ◌≡◌, refl, ap, ◌∙◌, Bool, true, false, not, ◌&&◌, inl, inr, none, List, [], ◌∷◌,
  arith, Bool-cases,
}
use k8s4claw.Ipc.Message.{MessageType, slow_down, resume, Message}
use k8s4claw.Sdk.Channel.Client.{
  Client, is_closed, Handled, handled, panicked, handle_type, handle_message, handle_all,
  wait_channel, dial, Dialing, replay_buffer, is_registered,
}

self_closed : (ch : ℕ) (cs : List ℕ) → is_closed ch (ch ∷ cs) ≡ true
unfolding is_closed
self_closed ch cs = ground arith

-- The rest of the loop.
abbrev pub after : List (Bool × Message) → Handled → Handled
after rest panicked = panicked
after rest (handled c) = handle_all rest c

pub handle_first :
    (picks_send : Bool) (msg : Message) (rest : List (Bool × Message)) (c : Client) (h : Handled)
    → c.is_done ≡ false
    → handle_message picks_send msg c ≡ h
    → handle_all ((picks_send, msg) ∷ rest) c ≡ after rest h
unfolding handle_all
handle_first picks_send msg rest c panicked open_still q = rw (open_still, q, handle_all) refl
handle_first picks_send msg rest c (handled c') open_still q = rw (open_still, q, handle_all) refl

resume_closed :
    (picks_send : Bool) (c : Client) (msg : Message)
    → is_closed c.throttle_ch c.closed_chs ≡ true
    → handle_type picks_send msg c resume ≡ panicked
unfolding handle_type
resume_closed picks_send c msg h = rw h refl

-- What a `resume` leaves.
abbrev pub resumed : Client → Client
resumed c = record c { throttled = false; closed_chs = c.throttle_ch ∷ c.closed_chs }

pub resume_open :
    (picks_send : Bool) (c : Client) (msg : Message)
    → is_closed c.throttle_ch c.closed_chs ≡ false
    → handle_type picks_send msg c resume ≡ handled (resumed c)
unfolding handle_type
resume_open picks_send c msg h = rw h refl

handle_kind :
    (picks_send : Bool) (c : Client) (msg : Message) (type : MessageType)
    → msg.type ≡ type
    → handle_message picks_send msg c ≡ handle_type picks_send msg c type
unfolding handle_message
handle_kind picks_send c msg type kind = ap (handle_type picks_send msg c) kind

resume_panics :
    (picks_send : Bool) (c : Client) (msg : Message) (rest : List (Bool × Message))
    → c.is_done ≡ false
    → msg.type ≡ resume
    → is_closed c.throttle_ch c.closed_chs ≡ true
    → handle_all ((picks_send, msg) ∷ rest) c ≡ panicked
resume_panics picks_send c msg rest open_still kind h =
    handle_first picks_send msg rest c panicked open_still
      (handle_kind picks_send c msg resume kind ∙ resume_closed picks_send c msg h)

-- A `resume` that comes right after another one closes a closed channel: the client panics.
resume_twice_panics :
    (b b' : Bool) (c : Client) (first second : Message) (rest : List (Bool × Message))
    → c.is_done ≡ false
    → first.type ≡ resume
    → second.type ≡ resume
    → handle_all ((b, first) ∷ (b', second) ∷ rest) c ≡ panicked
resume_twice_panics b b' c first second rest open_still kind kind' =
    elim (Bool-cases (is_closed c.throttle_ch c.closed_chs)) [
      | inl released ↦ resume_panics b c first ((b', second) ∷ rest) open_still kind released
      | inr waiting ↦
          handle_first b first ((b', second) ∷ rest) c (handled (resumed c)) open_still
            (handle_kind b c first resume kind ∙ resume_open b c first waiting)
          ∙ resume_panics b' (resumed c) second rest open_still kind'
              (self_closed c.throttle_ch c.closed_chs)
    ]

slow_open :
    (picks_send : Bool) (c : Client) (msg : Message)
    → handle_type picks_send msg c slow_down
      ≡ handled (record c { throttled = true; throttle_ch = c.next_ch; next_ch = suc c.next_ch })
unfolding handle_type
slow_open picks_send c msg = refl

-- What a second `slow_down` and a `resume` leave.
abbrev pub swapped : Client → Client
swapped c = record c { throttled = true; throttle_ch = c.next_ch; next_ch = suc c.next_ch }

swapped-resumed :
    (b b' : Bool) (c : Client) (slow again : Message)
    → c.is_done ≡ false
    → is_closed c.next_ch c.closed_chs ≡ false
    → slow.type ≡ slow_down
    → again.type ≡ resume
    → handle_all ((b, slow) ∷ (b', again) ∷ []) c ≡ handled (resumed (swapped c))
unfolding handle_all
swapped-resumed b b' c slow again open_still fresh kind kind' =
    handle_first b slow ((b', again) ∷ []) c (handled (swapped c)) open_still
      (handle_kind b c slow slow_down kind ∙ slow_open b c slow)
    ∙ handle_first b' again [] (swapped c) (handled (resumed (swapped c))) open_still
        (handle_kind b' (swapped c) again resume kind' ∙ resume_open b' (swapped c) again fresh)

-- A sender that waits on a channel when another `slow_down` arrives is not woken by the `resume` that
-- follows: the client is no longer throttled, but the channel of the sender is still open.
second_slow_down_strands :
    (b b' : Bool) (c : Client) (slow again : Message) (ch : ℕ)
    → c.is_done ≡ false
    → is_closed ch c.closed_chs ≡ false
    → ch < c.next_ch
    → is_closed c.next_ch c.closed_chs ≡ false
    → slow.type ≡ slow_down
    → again.type ≡ resume
    → (c' : Client) × (handle_all ((b, slow) ∷ (b', again) ∷ []) c ≡ handled c')
      × (wait_channel c' ≡ none)
      × (is_closed ch c'.closed_chs ≡ false)
unfolding wait_channel is_closed
second_slow_down_strands b b' c slow again ch open_still waits old fresh kind kind' = (
  resumed (swapped c),
  swapped-resumed b b' c slow again open_still fresh kind kind',
  refl,
  ground (arith, waits, old),
)

-- A new connection does not wake the senders that wait, and does not end the throttling: the client
-- is throttled after a dial exactly if it was, on the same channel, whatever the dial does.
dial_keeps_throttle :
    (d : Dialing) (c : Client)
    → ((dial d c).0.client.throttled ≡ c.throttled)
      × ((dial d c).0.client.throttle_ch ≡ c.throttle_ch)
      × ((dial d c).0.client.closed_chs ≡ c.closed_chs)
unfolding dial replay_buffer
dial_keeps_throttle d c = elim (Bool-cases (not (d.opens && d.registers))) [
  | inl lost ↦ rw (lost, dial) (refl, refl, refl)
  | inr there ↦ elim (Bool-cases (is_registered d.uuid d.reply)) [
    | inl ok ↦ rw (there, dial, ok) (refl, refl, refl)
    | inr odd ↦ rw (there, dial, odd) (refl, refl, refl)
  ]
]
