-- ===== src/Blob/Handler/Unsupported.antt =====
-- When a peer does not support the protocol of owlnest-blob, and when a handler panics.
use owl_nest.Base.{
  ℕ, ◌≡◌, refl, Bool, true, false, Option, some, none, List, [], ◌∷◌, ◌↔◌, ◌<◌, ◌∙◌, ap,
  if◌then◌else◌, ltb, length, Option-cases, ltb_iff, inl, inr,
}
use owl_nest.Blob.Types.{
  Bytes, FromBehaviourEvent, ToBehaviourEvent, Run, done, panicked, stuck, ◌>>=◌, Returns,
}
use owl_nest.Blob.Wire.{Prost}
use owl_nest.Blob.Handler.{
  Handler, Stream, inactive, RecvPoll, SendPoll, received, decode, on_message, poll_inbound, poll,
  HandlerEvent, notify_behaviour, ConnectionEvent, fully_negotiated_inbound,
  fully_negotiated_outbound, dial_upgrade_error, protocols_change, uncovered, on_connection_event,
  on_dial_upgrade_error, on_behaviour_event,
}

-- What happens to a handler between two failed negotiations: a request, a stream, or a poll.
pub data Input : Type 0 where
  request : FromBehaviourEvent → Input
  connected : ConnectionEvent → Input
  polled : RecvPoll → List SendPoll → Input

abbrev pub is_poll : Input → Bool
is_poll (request ev) = false
is_poll (connected ev) = false
is_poll (polled answer answers) = true

-- Neither of the two failures of `on_connection_event`: a failed negotiation or an uncovered event.
abbrev pub Quiet : Input → Type 0
Quiet (connected (dial_upgrade_error negotiation_failed)) = negotiation_failed ≡ false
Quiet (connected uncovered) = ⊥
Quiet _ = Unit

abbrev pub AllQuiet : List Input → Type 0
AllQuiet [] = Unit
AllQuiet (i ∷ is) = Quiet i × AllQuiet is

abbrev pub any_poll : List Input → Bool
any_poll [] = false
any_poll (i ∷ is) = if is_poll i then true else any_poll is

module _ (prost : Prost) where
  -- One input, and what a poll gave.
  abbrev pub step : Input → Handler → Run (Option HandlerEvent × Handler)
  step (request ev) h = done (none, on_behaviour_event h ev)
  step (connected ev) h = do h' ← on_connection_event h ev; done (none, h')
  step (polled answer answers) h = poll prost answer answers h

  -- The events that the inputs gave, in order, and the last handler.
  unfoldable pub run : List Input → Handler → Run (List HandlerEvent × Handler)
  run [] h = done ([], h)
  run (i ∷ is) h = do
    (event, h') ← step i h
    (events, h'') ← run is h'
    done (elim event [ none ↦ events | some ev ↦ ev ∷ events ], h'')

  run-next :
      (i : Input) (is : List Input) (h h' : Handler) (P : List HandlerEvent × Handler → Type 0)
      → step i h ≡ done (none, h')
      → Returns P (run is h')
      → Returns P (run (i ∷ is) h)
  unfolding run
  run-next i is h h' P e r = rw (e, run) (rest (run is h') r)
    where
      rest :
          (r : Run (List HandlerEvent × Handler))
          → Returns P r
          → Returns P (r >>= λ x. done (x.0, x.1))
      rest (done x) p = p
      rest panicked p = p
      rest stuck p = p

  step-Quiet :
      (i : Input) (h : Handler)
      → Quiet i
      → is_poll i ≡ false
      → (h' : Handler) × (step i h ≡ done (none, h')) × (h'.state ≡ h.state)
  unfolding on_behaviour_event on_connection_event on_dial_upgrade_error
  step-Quiet (request ev) h q n = (_, refl, refl)
  step-Quiet (connected (fully_negotiated_inbound stream)) h q n = (_, refl, refl)
  step-Quiet (connected (fully_negotiated_outbound stream)) h q n = (_, refl, refl)
  step-Quiet (connected (dial_upgrade_error true)) h q n = cc
  step-Quiet (connected (dial_upgrade_error false)) h q n = (_, refl, refl)
  step-Quiet (connected protocols_change) h q n = (_, refl, refl)
  step-Quiet (connected uncovered) h q n = absurd q
  step-Quiet (polled answer answers) h q n = cc

  run-silent :
      (is : List Input) (h : Handler)
      → AllQuiet is
      → h.state ≡ inactive true
      → Returns (λ (x : List HandlerEvent × Handler). x.0 ≡ []) (run is h)
  unfolding run poll
  run-silent [] h q e = refl
  run-silent (polled answer answers ∷ is) h q e =
      run-next (polled answer answers) is h h _ (simp (poll, e)) (run-silent is h q.1 e)
  run-silent (request ev ∷ is) h q e =
      let (h', s, f) = step-Quiet (request ev) h q.0 refl in
      run-next (request ev) is h h' _ s (run-silent is h' q.1 (f ∙ e))
  run-silent (connected ev ∷ is) h q e =
      let (h', s, f) = step-Quiet (connected ev) h q.0 refl in
      run-next (connected ev) is h h' _ s (run-silent is h' q.1 (f ∙ e))

  -- What is left of the events once a poll reports `unsupported`.
  run-reported :
      (is : List Input) (h : Handler)
      → AllQuiet is
      → h.state ≡ inactive false
      → Returns
          (λ (x : List HandlerEvent × Handler).
            x.0 ≡ (if any_poll is then notify_behaviour ToBehaviourEvent.unsupported ∷ [] else []))
          (run is h)
  unfolding run poll
  run-reported [] h q e = refl
  run-reported (polled answer answers ∷ is) h q e =
      simp (e, run, poll)
        (first (run is (record h { state = inactive true }))
          (run-silent is (record h { state = inactive true }) q.1 refl))
    where
      first :
          (r : Run (List HandlerEvent × Handler))
          → Returns (λ (x : List HandlerEvent × Handler). x.0 ≡ []) r
          → Returns
              (λ (x : List HandlerEvent × Handler).
                x.0 ≡ notify_behaviour ToBehaviourEvent.unsupported ∷ [])
              (r >>= λ x. done (notify_behaviour ToBehaviourEvent.unsupported ∷ x.0, x.1))
      first (done x) p = ap (λ events. notify_behaviour ToBehaviourEvent.unsupported ∷ events) p
      first panicked p = p
      first stuck p = p
  run-reported (request ev ∷ is) h q e =
      let (h', s, f) = step-Quiet (request ev) h q.0 refl in
      run-next (request ev) is h h' _ s (run-reported is h' q.1 (f ∙ e))
  run-reported (connected ev ∷ is) h q e =
      let (h', s, f) = step-Quiet (connected ev) h q.0 refl in
      run-next (connected ev) is h h' _ s (run-reported is h' q.1 (f ∙ e))

  -- After a peer turned the protocol down, whatever requests, streams and polls follow, without a
  -- second such failure and without an uncovered event, the handler does not panic and gives one event
  -- in all: `unsupported`, if it is polled at all.
  pub unsupported_once :
      (is : List Input) (h : Handler)
      → AllQuiet is
      → Returns
          (λ (x : List HandlerEvent × Handler).
            x.0 ≡ (if any_poll is then notify_behaviour ToBehaviourEvent.unsupported ∷ [] else []))
          (run (connected (dial_upgrade_error true) ∷ is) h)
  unfolding on_connection_event on_dial_upgrade_error
  unsupported_once is h q =
      run-next (connected (dial_upgrade_error true)) is h
        (record h { outbound = none; state = inactive false }) _ refl
        (run-reported is (record h { outbound = none; state = inactive false }) q refl)

  unread_panics :
      (short : Bool) (r : Bool × Handler) (x : Option HandlerEvent × Handler)
      → ((if r.0 then done (none, r.1) else if short then panicked else done x) ≡ panicked)
        ↔ ((r.0 ≡ false) × (short ≡ true))
  unread_panics short (true, h) x = ((λ p. cc), (λ q. cc (q.0)))
  unread_panics true (false, h) x = ((λ p. (refl, refl)), (λ q. refl))
  unread_panics false (false, h) x = ((λ p. cc), (λ q. cc (q.1)))

  decoded_Bool :
      (r : Bool × Handler) (o : Option ToBehaviourEvent) (ev : ToBehaviourEvent)
      → r.0 ≡ true
      → o ≡ some ev
      → (r.0 ≡ false) ↔ (o ≡ none)
  decoded_Bool r o ev p e = ((λ q. cc), (λ q. cc))

  on_message-decode :
      (h : Handler) (bytes : Bytes) (message_type : ℕ)
      → ((on_message prost h bytes message_type).0 ≡ false)
        ↔ (decode prost bytes message_type ≡ none)
  unfolding on_message
  on_message-decode h bytes message_type = elim (Option-cases (decode prost bytes message_type)) [
    | inl f ↦ ((λ p. f), (λ q. rw (f, on_message)))
    | inr (ev, f) ↦ decoded_Bool (on_message prost h bytes message_type) _ ev (rw (f, on_message)) f
  ]

  -- Reading a message panics exactly when the message cannot be decoded and is shorter than 20 bytes.
  pub short_message_panics :
      (h : Handler) (bytes : Bytes) (message_type : ℕ) (reading stream : Stream)
      → h.inbound ≡ some reading
      → (poll_inbound prost (received stream bytes message_type) h ≡ panicked)
        ↔ ((decode prost bytes message_type ≡ none) × (length bytes < 20))
  unfolding poll_inbound
  short_message_panics h bytes message_type reading stream e =
      rw (e, poll_inbound)
        (both (on_message-decode (record h { inbound = some stream }) bytes message_type)
          (ltb_iff (length bytes) 20)
          (unread_panics (ltb (length bytes) 20)
            (on_message prost (record h { inbound = some stream }) bytes message_type) _))
    where
      both : {A B C D E : Type 0} → A ↔ B → C ↔ D → E ↔ (A × C) → E ↔ (B × D)
      both f g e = ((λ x. (f.0 (e.0 x).0, g.0 (e.0 x).1)), (λ y. e.1 (f.1 y.0, g.1 y.1)))
