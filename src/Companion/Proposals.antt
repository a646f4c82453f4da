-- ===== src/Companion/Proposals.antt =====
-- The actions that the gateway's client lets through: cmd/claw4k8s/llm_client.go and
-- internal/controller/clawops_intent.go.
use k8s4claw.Base.{
  ◌≡◌, refl, String, true, false, ◌⊎◌, inl, inr, Option, none, some, List, [], ◌∷◌, Bool-cases,
  Option-cases, str_eq, leb,
}
use k8s4claw.Controller.Intent.{validate_intent}
use k8s4claw.Controller.Intent.Types.{
  Codec, OpsIntent, Parsed, nothing, intent, invalid, is_allowed,
}
use k8s4claw.Companion.Pipeline.{Answer, answered, call_failed}
use k8s4claw.Companion.Gateway.{
  Gateway, Net, Response, unreachable, response, extract_action, stamp, stamped,
  validate_and_stamp_action, checked_action, read_choices, read_response, ask, chat_request,
}

module _ (k : Codec) (net : Net)
    (reads : (raw : String) (i : OpsIntent)
      → validate_intent k raw ≡ intent i
      → k.unmarshal (net.marshal (stamp k net i)) ≡ some (stamp k net i)) where
  -- The text is no action, or an intent that is allowed, with the server's time as its generation.
  abbrev pub IsProposal : String → Type 0
  IsProposal action =
      (action ≡ "")
      ⊎ ((i : OpsIntent) × (validate_intent k action ≡ intent i) × (i.generation ≡ net.now_ms))

  -- What an intent that validates is like.
  IsValid : Parsed → Type 0
  IsValid nothing = Unit
  IsValid invalid = Unit
  IsValid (intent i) = (str_eq i.action "" ≡ false) × (is_allowed i.action ≡ true)

  validate_intent-IsValid : (raw : String) → IsValid (validate_intent k raw)
  unfolding validate_intent IsValid
  validate_intent-IsValid raw = elim (Option-cases (k.unmarshal raw)) [
    | inl lost ↦ rw (lost, validate_intent) tt
    | inr (i, read) ↦ elim (Bool-cases (str_eq i.action "")) [
      | inl unnamed ↦ rw (read, validate_intent, unnamed) tt
      | inr named ↦ elim (Bool-cases (is_allowed i.action)) [
        | inr banned ↦ rw (read, validate_intent, named, banned) tt
        | inl allowed ↦ rw (read, validate_intent, named, allowed, IsValid) (named, allowed)
      ]
    ]
  ]

  stamped_validates :
      (raw : String) (i : OpsIntent)
      → validate_intent k raw ≡ intent i
      → str_eq i.action "" ≡ false
      → is_allowed i.action ≡ true
      → validate_intent k (net.marshal (stamp k net i)) ≡ intent (stamp k net i)
  unfolding validate_intent
  stamped_validates raw i q named allowed = rw (reads raw i q, validate_intent, named, allowed) refl

  -- What is stamped is a proposal.
  IsStamped : Option String → Type 0
  IsStamped none = Unit
  IsStamped (some action) = IsProposal action

  stamped-IsStamped :
      (raw : String) (parsed : Parsed)
      → validate_intent k raw ≡ parsed
      → IsValid parsed
      → IsStamped (stamped k net parsed)
  unfolding stamped IsValid IsStamped
  stamped-IsStamped raw nothing q valid = tt
  stamped-IsStamped raw invalid q valid = tt
  stamped-IsStamped raw (intent i) q (named, allowed) =
      inr (stamp k net i, stamped_validates raw i q named allowed, refl)

  or_nothing : (o : Option String) → IsStamped o → IsProposal (elim o [ none ↦ "" | some a ↦ a ])
  unfolding IsStamped
  or_nothing none h = inl refl
  or_nothing (some action) h = h

  checked_action-IsProposal : (raw : String) → IsProposal (checked_action k net raw)
  unfolding checked_action validate_and_stamp_action
  checked_action-IsProposal raw = elim (Bool-cases (str_eq raw "")) [
    | inl empty ↦ rw (empty, checked_action) (inl refl)
    | inr there ↦
        rw (there, checked_action)
          (or_nothing (stamped k net (validate_intent k raw))
            (stamped-IsStamped raw (validate_intent k raw) refl (validate_intent-IsValid raw)))
  ]

  -- What holds of an answer's action.
  abbrev pub ProposesOnly : Answer → Type 0
  ProposesOnly call_failed = Unit
  ProposesOnly (answered analysis action) = IsProposal action

  choices-ProposesOnly :
      (contents : Option (List String)) → ProposesOnly (read_choices k net contents)
  unfolding read_choices
  choices-ProposesOnly none = tt
  choices-ProposesOnly (some []) = tt
  choices-ProposesOnly (some (content ∷ contents)) =
      checked_action-IsProposal (extract_action net content).1

  response-ProposesOnly : (r : Response) → ProposesOnly (read_response k net r)
  unfolding read_response
  response-ProposesOnly unreachable = tt
  response-ProposesOnly (response status none) = tt
  response-ProposesOnly (response status (some body)) = elim (Bool-cases (leb 400 status)) [
    | inl refused ↦ rw (refused, read_response) tt
    | inr ok ↦ rw (ok, read_response, ProposesOnly) (choices-ProposesOnly (net.choices body))
  ]

  -- Whatever the language model answers, the action that is proposed is empty or reads back as an
  -- intent of the allow list with the server's time as its generation, if JSON reads back the
  -- stamped intents that it writes.
  pub ask-ProposesOnly : (g : Gateway) (prompt : String) → ProposesOnly (ask k net g prompt)
  unfolding ask chat_request
  ask-ProposesOnly g prompt = elim (Bool-cases g.has_http_client) [
    | inr lost ↦ rw (lost, ask) tt
    | inl there ↦
        rw (there, ask, ProposesOnly) (response-ProposesOnly (net.send (chat_request g prompt)))
  ]
