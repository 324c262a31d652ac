-- ===== src/Blob/Handler/Queueing.antt =====
-- The requests of the behaviour are sent in order, and none is lost before it is sent.
use mathlib.Core.List.{append_assoc, map-append}
use owl_nest.Base.{
  ℕ, ◌≡◌, refl, ◌∙◌, ap, Bool, true, false, Option, some, none, List, [], ◌∷◌, ◌++◌, map,
  Option-cases, inl, inr, ◌⊎◌, if◌then◌else◌, ltb, length,
}
use owl_nest.Blob.Types.{
  Bytes, FromBehaviourEvent, ToBehaviourEvent, Error, Run, done, panicked, stuck, ◌>>=◌,
}
use owl_nest.Blob.Invariant.Formed.{Ends}
use owl_nest.Blob.Wire.{Prost}
use owl_nest.Blob.Handler.{
  Handler, Stream, Sending, SendType, control_send, control_recv, cancel, file_send, SendPoll,
  waiting, sent, broken, encode, progress_outbound, on_sent, poll_busy, poll_outbound, open_stream,
  idle, busy, HandlerEvent, OutboundState, report, RecvPoll, received, poll_inbound, on_message,
  decode, or_else, pop_report, poll, poll_active, State, inactive, active,
}

OutboundState-cases :
    (o : Option OutboundState)
    → (o ≡ none)
      ⊎ (o ≡ some open_stream)
      ⊎ ((s : Sending) × (t : SendType) × (o ≡ some (busy s t)))
      ⊎ ((stream : Stream) × (o ≡ some (idle stream)))
OutboundState-cases none = inl refl
OutboundState-cases (some open_stream) = inr (inl refl)
OutboundState-cases (some (busy s t)) = inr (inr (inl (s, t, refl)))
OutboundState-cases (some (idle stream)) = inr (inr (inr (stream, refl)))

module _ (prost : Prost) where
  -- The message of a request, and that of a send which was started.
  abbrev pub message : FromBehaviourEvent → Bytes × ℕ
  message ev = ((encode prost ev).0, (encode prost ev).1)

  abbrev pub started_message : Sending → Bytes × ℕ
  started_message s = (s.bytes, s.message_type)

  -- All messages: those started, oldest first, and then those still waiting.
  abbrev pub messages : Handler → List (Bytes × ℕ)
  messages h = map started_message h.started ++ map message h.pending_in_events

  pub on_sent-messages :
      (t : SendType) (rtt : ℕ) (h : Handler)
      → (messages (on_sent prost t rtt h) ≡ messages h)
        × ((on_sent prost t rtt h).pending_in_events ≡ h.pending_in_events)
  unfolding on_sent
  on_sent-messages (control_send callback id) rtt h = (refl, refl)
  on_sent-messages (control_recv callback) rtt h = (refl, refl)
  on_sent-messages cancel rtt h = (refl, refl)
  on_sent-messages (file_send id) rtt h = (refl, refl)

  next-messages :
      (h : Handler) (ev : FromBehaviourEvent) (rest : List FromBehaviourEvent) (stream : Stream)
      → h.pending_in_events ≡ ev ∷ rest
      → messages (progress_outbound prost (record h { pending_in_events = rest }) ev stream)
        ≡ messages h
  unfolding progress_outbound
  next-messages h ev rest stream e = simp (map-append, append_assoc, e)

  poll_busy-messages :
      (answers : List SendPoll) (h : Handler) (s : Sending) (t : SendType)
      → messages (poll_busy prost answers h s t).1 ≡ messages h
  unfolding poll_busy
  poll_busy-messages [] h s t = refl
  poll_busy-messages (waiting false ∷ answers) h s t = refl
  poll_busy-messages (waiting true ∷ answers) h s t = refl
  poll_busy-messages (broken e ∷ answers) h s t = refl
  poll_busy-messages (sent stream rtt ∷ answers) h s t =
      rest (on_sent prost t rtt h).pending_in_events refl (on_sent-messages t rtt h).0
        (λ h' s' t'. poll_busy-messages answers h' s' t')
    where
      rest :
          (evs : List FromBehaviourEvent)
          → (on_sent prost t rtt h).pending_in_events ≡ evs
          → messages (on_sent prost t rtt h) ≡ messages h
          → ((h' : Handler) (s' : Sending) (t' : SendType)
              → messages (poll_busy prost answers h' s' t').1 ≡ messages h')
          → messages (poll_busy prost (sent stream rtt ∷ answers) h s t).1 ≡ messages h
      rest [] e same ih = rw (e, poll_busy) same
      rest (ev ∷ evs) e same ih =
          rw (e, poll_busy)
            (ih _ _ _ ∙ next-messages (on_sent prost t rtt h) ev evs stream e ∙ same)

  pub poll_outbound-messages :
      (answers : List SendPoll) (h : Handler)
      → messages (poll_outbound prost answers h).1 ≡ messages h
  unfolding poll_outbound
  poll_outbound-messages answers h = elim (OutboundState-cases h.outbound) [
    | inl e ↦ rw (e, poll_outbound)
    | inr (inl e) ↦ rw (e, poll_outbound)
    | inr (inr (inl (s, t, e))) ↦ rw (e, poll_outbound) (poll_busy-messages answers h s t)
    | inr (inr (inr (stream, e))) ↦ rest stream e h.pending_in_events refl
  ]
    where
      rest :
          (stream : Stream)
          → h.outbound ≡ some (idle stream)
          → (evs : List FromBehaviourEvent) → h.pending_in_events ≡ evs
          → messages (poll_outbound prost answers h).1 ≡ messages h
      rest stream e [] f = rw (e, f, poll_outbound) (rw f)
      rest stream e (ev ∷ evs) f =
          rw (e, f, poll_outbound)
            (poll_busy-messages answers _ _ _
              ∙ next-messages h ev evs stream f
              ∙ ap (λ x. map started_message h.started ++ map message x) f)

  on_message-messages :
      (h : Handler) (bytes : Bytes) (message_type : ℕ)
      → messages (on_message prost h bytes message_type).1 ≡ messages h
  unfolding on_message
  on_message-messages h bytes message_type = elim (Option-cases (decode prost bytes message_type)) [
    | inl e ↦ rw (e, on_message)
    | inr (ev, e) ↦ rw (e, on_message)
  ]

  unread-messages :
      (h : Handler) (short : Bool) (r : Bool × Handler)
      → messages r.1 ≡ messages h
      → Ends
          (λ (x : Option HandlerEvent × Handler). messages x.1 ≡ messages h)
          (if r.0
            then done (none, r.1)
            else if short
            then panicked
            else done (
              none,
              report r.1
                  (ToBehaviourEvent.error (Error.unrecognized_message "Unrecognized message")),
            ))
  unread-messages h short (true, h') e = e
  unread-messages h true (false, h') e = tt
  unread-messages h false (false, h') e = e

  poll_inbound-messages :
      (answer : RecvPoll) (h : Handler)
      → Ends
          (λ (x : Option HandlerEvent × Handler). messages x.1 ≡ messages h)
          (poll_inbound prost answer h)
  unfolding poll_inbound
  poll_inbound-messages RecvPoll.waiting h = elim (Option-cases h.inbound) [
    | inl e ↦ rw (e, poll_inbound) refl
    | inr (reading, e) ↦ rw (e, poll_inbound) refl
  ]
  poll_inbound-messages (RecvPoll.broken x) h = elim (Option-cases h.inbound) [
    | inl e ↦ rw (e, poll_inbound) refl
    | inr (reading, e) ↦ rw (e, poll_inbound) refl
  ]
  poll_inbound-messages (received stream bytes message_type) h = elim (Option-cases h.inbound) [
    | inl e ↦ rw (e, poll_inbound) refl
    | inr (reading, e) ↦
        rw (e, poll_inbound)
          (unread-messages h (ltb (length bytes) 20) _
            (on_message-messages (record h { inbound = some stream }) bytes message_type))
  ]

  or_else-messages :
      (h : Handler) (r : Option HandlerEvent × Handler)
      (next : Handler → Option HandlerEvent × Handler)
      → messages r.1 ≡ messages h
      → ((h' : Handler) → messages (next h').1 ≡ messages h')
      → messages (or_else prost r next).1 ≡ messages h
  unfolding or_else
  or_else-messages h (some ev, h') next e all = e
  or_else-messages h (none, h') next e all = all h' ∙ e

  pop_report-messages :
      (h : Handler) (evs : List ToBehaviourEvent) → messages (pop_report prost h evs).1 ≡ messages h
  unfolding pop_report
  pop_report-messages h [] = refl
  pop_report-messages h (ev ∷ evs) = refl

  poll_rest-messages :
      (answers : List SendPoll) (h : Handler) (r : Run (Option HandlerEvent × Handler))
      → Ends (λ (x : Option HandlerEvent × Handler). messages x.1 ≡ messages h) r
      → Ends
          (λ (x : Option HandlerEvent × Handler). messages x.1 ≡ messages h)
          (r >>= λ first. done (
            or_else prost first λ h'.
              or_else prost
                (poll_outbound prost answers h')
                λ h''. pop_report prost h'' h''.pending_out_events))
  poll_rest-messages answers h (done first) e = or_else-messages h first _ e λ h'.
      or_else-messages h' (poll_outbound prost answers h') _ (poll_outbound-messages answers h')
        λ h''. pop_report-messages h'' h''.pending_out_events
  poll_rest-messages answers h panicked e = tt
  poll_rest-messages answers h stuck e = tt

  -- Polling a handler moves messages from those that wait to those that were started, in order: the
  -- messages started so far followed by those of the waiting requests stay the same list, unless the
  -- poll panics.
  pub poll-messages :
      (answer : RecvPoll) (answers : List SendPoll) (h : Handler)
      → Ends
          (λ (x : Option HandlerEvent × Handler). messages x.1 ≡ messages h)
          (poll prost answer answers h)
  unfolding poll poll_active
  poll-messages answer answers h = split h.state refl
    where
      split :
          (st : State)
          → h.state ≡ st
          → Ends
              (λ (x : Option HandlerEvent × Handler). messages x.1 ≡ messages h)
              (poll prost answer answers h)
      split (inactive true) e = rw (e, poll) refl
      split (inactive false) e = rw (e, poll) refl
      split active e =
          rw (e, poll)
            (poll_rest-messages answers h (poll_inbound prost answer h)
              (poll_inbound-messages answer h))
