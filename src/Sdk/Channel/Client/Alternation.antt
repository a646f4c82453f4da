-- ===== src/Sdk/Channel/Client/Alternation.antt =====
-- Backpressure signals that alternate: sdk/channel/client.go.
use mathlib.Core.Path.{subst}
use mathlib.Core.Option.{some_inj}
use k8s4claw.Base.{
  ℕ, suc, ◌≤◌, ◌<◌, ◌≡◌, ◌≢◌, refl, sym, ◌∙◌, Bool, true, false, ◌&&◌, inl, inr, Option, none, some,
  List, [], ◌∷◌, arith, length, ltb, Bool-cases, str_eq, Option-cases,
}
use k8s4claw.Ipc.Message.{
  MessageType, message, ack, nack, slow_down, resume, shutdown, register, heartbeat, other, Message,
}
use k8s4claw.Sdk.Channel.Options.{ClientConfig, Setting}
use k8s4claw.Sdk.Channel.Client.{
  Client, is_closed, Handled, handled, panicked, deliver, handle_type, handle_message, handle_all,
  close, new_client, apply_settings,
}
use k8s4claw.Sdk.Channel.Client.Throttle.{after, handle_first, resume_open}

-- Whether the client is throttled after a message; a `resume` has no place while it is not.
abbrev pub turn : Bool → MessageType → Option Bool
turn throttled slow_down = some true
turn true resume = some false
turn false resume = none
turn throttled shutdown = some throttled
turn throttled ack = some throttled
turn throttled nack = some throttled
turn throttled heartbeat = some throttled
turn throttled register = some throttled
turn throttled (other s) = some throttled
turn throttled message = some throttled

-- Each `resume` follows a `slow_down` with no other `resume` in between.
abbrev pub is_alternating : Bool → List (Bool × Message) → Bool
is_alternating throttled [] = true
is_alternating throttled ((_, m) ∷ msgs) = elim (turn throttled m.type) [
  | none ↦ false
  | some t ↦ is_alternating t msgs
]

-- Channels that were not used are open, and so is the one in use while the client is throttled.
record Sound (throttled : Bool) (ch next : ℕ) (closed : List ℕ) : Type 0 where
  unused : (n : ℕ) → next ≤ n → is_closed n closed ≡ false
  used : ch < next
  waiting : (is_closed ch closed && throttled) ≡ false

abbrev IsSound : Bool → Client → Type 0
IsSound throttled c = Sound throttled c.throttle_ch c.next_ch c.closed_chs

-- A handler that goes on with a sound client.
abbrev GoesOn : Bool → Handled → Type 0
GoesOn throttled panicked = true ≡ false
GoesOn throttled (handled c) = IsSound throttled c

close-IsSound : (t : Bool) (c : Client) → IsSound t c → IsSound t (close c)
unfolding close
close-IsSound t c s = elim (Bool-cases c.is_done) [
  | inl over ↦ rw (over, close) s
  | inr open_still ↦ rw (open_still, close) s
]

deliver-GoesOn :
    (b t : Bool) (msg : Message) (c : Client)
    → c.is_done ≡ false
    → IsSound t c
    → GoesOn t (deliver b msg c)
unfolding deliver
deliver-GoesOn b t msg c open_still s = elim (Bool-cases (ltb (length c.inbound) 64)) [
  | inl room ↦ rw (open_still, deliver, room, GoesOn) s
  | inr full ↦ rw (open_still, deliver, full) s
]

slow-Sound :
    (t : Bool) (ch next : ℕ) (closed : List ℕ)
    → Sound t ch next closed
    → Sound true next (suc next) closed
slow-Sound t ch next closed s = record {
  unused = λ n le. s.unused n (omega (arith, le));
  used = omega arith;
  waiting = ground (arith, s.unused next (omega arith));
}

resume-Sound :
    (ch next : ℕ) (closed : List ℕ) → Sound true ch next closed → Sound false ch next (ch ∷ closed)
unfolding is_closed
resume-Sound ch next closed s = record {
  unused = λ n le. ground (arith, s.unused n le, s.used, le);
  used = s.used;
  waiting = ground arith;
}

resume-GoesOn :
    (b t t' : Bool) (msg : Message) (c : Client)
    → IsSound t c
    → turn t resume ≡ some t'
    → GoesOn t' (handle_type b msg c resume)
resume-GoesOn b false t' msg c s q = absurd (ground (arith, q))
resume-GoesOn b true t' msg c s q =
    subst (GoesOn t') (sym (resume_open b c msg (ground (arith, s.waiting)))) (
      subst (λ x. Sound x c.throttle_ch c.next_ch (c.throttle_ch ∷ c.closed_chs)) (some_inj.0 q)
        (resume-Sound c.throttle_ch c.next_ch c.closed_chs s))

type-GoesOn :
    (b t t' : Bool) (msg : Message) (c : Client) (type : MessageType)
    → c.is_done ≡ false
    → IsSound t c
    → turn t type ≡ some t'
    → GoesOn t' (handle_type b msg c type)
unfolding handle_type
type-GoesOn b t t' msg c slow_down open_still s q =
    subst (λ x. Sound x c.next_ch (suc c.next_ch) c.closed_chs) (some_inj.0 q)
      (slow-Sound t c.throttle_ch c.next_ch c.closed_chs s)
type-GoesOn b t t' msg c resume open_still s q = resume-GoesOn b t t' msg c s q
type-GoesOn b t t' msg c shutdown open_still s q =
    close-IsSound t' c (subst (λ x. IsSound x c) (some_inj.0 q) s)
type-GoesOn b t t' msg c ack open_still s q = subst (λ x. IsSound x c) (some_inj.0 q) s
type-GoesOn b t t' msg c nack open_still s q = subst (λ x. IsSound x c) (some_inj.0 q) s
type-GoesOn b t t' msg c heartbeat open_still s q = subst (λ x. IsSound x c) (some_inj.0 q) s
type-GoesOn b t t' msg c register open_still s q = subst (λ x. IsSound x c) (some_inj.0 q) s
type-GoesOn b t t' msg c (other o) open_still s q = subst (λ x. IsSound x c) (some_inj.0 q) s
type-GoesOn b t t' msg c message open_still s q =
    deliver-GoesOn b t' msg c open_still (subst (λ x. IsSound x c) (some_inj.0 q) s)

after_runs :
    (rest : List (Bool × Message)) (t : Bool) (h : Handled)
    → GoesOn t h
    → ((c : Client) → IsSound t c → handle_all rest c ≢ panicked)
    → after rest h ≢ panicked
after_runs rest t panicked good later = absurd (ground (arith, good))
after_runs rest t (handled c) good later = later c good

runs_on :
    (msgs : List (Bool × Message)) (t : Bool) (c : Client)
    → IsSound t c
    → is_alternating t msgs ≡ true
    → handle_all msgs c ≢ panicked
unfolding handle_all handle_message
runs_on [] t c s h = λ q. ground (arith, q)
runs_on ((b, m) ∷ msgs) t c s h = elim (Option-cases (turn t m.type)) [
  | inl out_of_turn ↦ absurd (ground (arith, rw (out_of_turn, is_alternating) at h))
  | inr (t', next) ↦ elim (Bool-cases c.is_done) [
    | inl over ↦ rw (over, handle_all) (λ q. ground (arith, q))
    | inr open_still ↦
        let first = handle_type b m c m.type in
        let rest : after msgs first ≢ panicked =
          after_runs msgs t' first (type-GoesOn b t t' m c m.type open_still s next)
            (λ c' s'. runs_on msgs t' c' s' (rw (next, is_alternating) at h)) in
        λ q. rest (sym (handle_first b m msgs c first open_still refl) ∙ q)
  ]
]

new_client-IsSound :
    (defaults : ClientConfig) (settings : List Setting) (c : Client)
    → new_client defaults settings ≡ some c
    → IsSound false c
unfolding new_client is_closed
new_client-IsSound defaults settings c q =
    elim (Bool-cases (str_eq (apply_settings settings defaults).channel_name "")) [
      | inl unnamed ↦ absurd (ground (arith, rw (unnamed, new_client) at q))
      | inr named ↦
          subst (IsSound false) (some_inj.0 (rw (named, new_client) at q))
            (record { unused = λ n le. refl; used = omega arith; waiting = refl })
    ]

-- The read loop of a new client handles every sequence of messages in which each `resume` answers a
-- `slow_down` without a panic, whatever a `select` chooses, also when a `shutdown` closes the client
-- on the way. Nothing else closes it meanwhile.
pub alternating_safe :
    (defaults : ClientConfig) (settings : List Setting) (c : Client) (msgs : List (Bool × Message))
    → new_client defaults settings ≡ some c
    → is_alternating false msgs ≡ true
    → handle_all msgs c ≢ panicked
alternating_safe defaults settings c msgs made turns =
    runs_on msgs false c (new_client-IsSound defaults settings c made) turns
