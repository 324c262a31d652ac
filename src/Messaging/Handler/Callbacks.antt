-- ===== src/Messaging/Handler/Callbacks.antt =====
-- The callbacks of the requests to a handler of protocols/owlnest-messaging, over a whole run.
use mathlib.Core.List.{append_assoc, append-nil, map-append}
use owl_nest.Base.{◌≡◌, refl, ◌∙◌, true, false, Option, none, some, List, [], ◌∷◌, ◌++◌, map}
use owl_nest.Messaging.{
  Bytes, Callback, Message, FromBehaviourEvent, post_message, ToBehaviourEvent,
}
use owl_nest.Messaging.Handler.{
  Handler, Stream, State, inactive, active, Sending, OutboundState, open_stream, idle, busy,
  Settled, HandlerEvent, RecvPoll, SendPoll, waiting, sent, broken, received, poll_inbound, settle,
  replace_outbound, progress_in_events, poll_busy, poll_outbound, pop_report, or_else, poll,
}

abbrev pub requester : FromBehaviourEvent → Callback
requester (post_message msg callback) = callback

abbrev pub settled_callback : Callback × Settled → Callback
settled_callback (callback, how) = callback

abbrev pub under_way : Option OutboundState → List Callback
under_way none = []
under_way (some open_stream) = []
under_way (some (idle stream)) = []
under_way (some (busy sending callback)) = callback ∷ []

-- All callbacks: the settled ones, oldest first, the one whose message is being sent, and those that
-- wait.
abbrev pub callbacks : Handler → List Callback
callbacks h =
    map settled_callback h.settled ++ under_way h.outbound ++ map requester h.pending_in_events

-- The callbacks of a handler that sends, whatever its outbound state says meanwhile.
abbrev sending_callbacks : Handler → Callback → List Callback
sending_callbacks h callback =
    map settled_callback h.settled ++ callback ∷ map requester h.pending_in_events

module _ (to_vec : Message → Bytes) where
  poll_busy-callbacks :
      (answers : List SendPoll) (h : Handler) (s : Sending) (callback : Callback)
      → callbacks (poll_busy to_vec answers h s callback).1 ≡ sending_callbacks h callback
  unfolding poll_busy settle
  poll_busy-callbacks [] h s callback = simp append_assoc
  poll_busy-callbacks (waiting false ∷ answers) h s callback = simp append_assoc
  poll_busy-callbacks (waiting true ∷ answers) h s callback =
      simp (map-append, append_assoc, append-nil)
  poll_busy-callbacks (broken e ∷ answers) h s callback =
      simp (map-append, append_assoc, append-nil)
  poll_busy-callbacks (sent stream rtt ∷ answers) h s callback =
      rest h.pending_in_events refl (λ h' s' next. poll_busy-callbacks answers h' s' next)
    where
      rest :
          (evs : List FromBehaviourEvent)
          → h.pending_in_events ≡ evs
          → ((h' : Handler) (s' : Sending) (next : Callback)
              → callbacks (poll_busy to_vec answers h' s' next).1 ≡ sending_callbacks h' next)
          → callbacks (poll_busy to_vec (sent stream rtt ∷ answers) h s callback).1
            ≡ map settled_callback h.settled ++ callback ∷ map requester evs
      rest [] e all = rw (e, poll_busy) (simp (e, map-append, append_assoc, append-nil))
      rest (post_message msg next ∷ evs) e all =
          rw (e, poll_busy) (all _ _ next ∙ simp (map-append, append_assoc))

  poll_outbound-callbacks :
      (answers : List SendPoll) (h : Handler)
      → callbacks (poll_outbound to_vec answers h).1 ≡ callbacks h
  unfolding poll_outbound progress_in_events
  poll_outbound-callbacks answers h = outbound h.outbound refl
    where
      free :
          (stream : Stream) (evs : List FromBehaviourEvent)
          → h.outbound ≡ some (idle stream)
          → h.pending_in_events ≡ evs
          → callbacks (poll_outbound to_vec answers h).1 ≡ callbacks h
      free stream [] e f = rw (e, f, poll_outbound) (simp (e, f, append-nil))
      free stream (post_message msg next ∷ evs) e f =
          rw (e, f, poll_outbound) (poll_busy-callbacks answers _ _ next ∙ simp append_assoc)

      outbound :
          (o : Option OutboundState)
          → h.outbound ≡ o
          → callbacks (poll_outbound to_vec answers h).1 ≡ callbacks h
      outbound none e = rw (e, poll_outbound) (simp append_assoc)
      outbound (some open_stream) e = rw (e, poll_outbound) (simp (e, append_assoc))
      outbound (some (busy s callback)) e =
          rw (e, poll_outbound) (poll_busy-callbacks answers h s callback ∙ simp append_assoc)
      outbound (some (idle stream)) e = free stream h.pending_in_events e refl

  poll_inbound-callbacks :
      (answer : RecvPoll) (h : Handler) → callbacks (poll_inbound answer h).1 ≡ callbacks h
  unfolding poll_inbound
  poll_inbound-callbacks answer h = by_stream answer h.inbound refl
    where
      by_stream :
          (answer : RecvPoll) (o : Option Stream)
          → h.inbound ≡ o
          → callbacks (poll_inbound answer h).1 ≡ callbacks h
      by_stream answer none e = rw (e, poll_inbound) refl
      by_stream RecvPoll.waiting (some reading) e = rw (e, poll_inbound) refl
      by_stream (received stream bytes) (some reading) e = rw (e, poll_inbound) refl
      by_stream (RecvPoll.broken x) (some reading) e = rw (e, poll_inbound) refl

  pop_report-callbacks :
      (h : Handler) (evs : List ToBehaviourEvent)
      → callbacks (pop_report to_vec h evs).1 ≡ callbacks h
  unfolding pop_report
  pop_report-callbacks h [] = refl
  pop_report-callbacks h (ev ∷ evs) = refl

  or_else-callbacks :
      (h : Handler) (r : Option HandlerEvent × Handler)
      (next : Handler → Option HandlerEvent × Handler)
      → callbacks r.1 ≡ callbacks h
      → ((h' : Handler) → callbacks (next h').1 ≡ callbacks h')
      → callbacks (or_else to_vec r next).1 ≡ callbacks h
  unfolding or_else
  or_else-callbacks h (some ev, h') next e all = e
  or_else-callbacks h (none, h') next e all = all h' ∙ e

  pub poll-callbacks :
      (answer : RecvPoll) (answers : List SendPoll) (h : Handler)
      → callbacks (poll to_vec answer answers h).1 ≡ callbacks h
  unfolding poll
  poll-callbacks answer answers h = by_state h.state refl
    where
      by_state :
          (st : State) → h.state ≡ st → callbacks (poll to_vec answer answers h).1 ≡ callbacks h
      by_state (inactive true) e = rw (e, poll) refl
      by_state (inactive false) e = rw (e, poll) refl
      by_state active e =
          rw (e, poll)
            (or_else-callbacks h (poll_inbound answer h) _ (poll_inbound-callbacks answer h) λ h'.
              or_else-callbacks h' (poll_outbound to_vec answers h') _
                (poll_outbound-callbacks answers h')
                λ h''. pop_report-callbacks h'' h''.pending_out_events)

pub replace_outbound-callbacks :
    (h : Handler) (o : Option OutboundState)
    → under_way o ≡ []
    → callbacks (replace_outbound h o) ≡ callbacks h
unfolding replace_outbound
replace_outbound-callbacks h o free = by_outbound h.outbound refl
  where
    by_outbound :
        (old : Option OutboundState)
        → h.outbound ≡ old
        → callbacks (replace_outbound h o) ≡ callbacks h
    by_outbound none e = rw (e, replace_outbound) (simp free)
    by_outbound (some open_stream) e = rw (e, replace_outbound) (simp free)
    by_outbound (some (idle stream)) e = rw (e, replace_outbound) (simp free)
    by_outbound (some (busy s callback)) e =
        rw (e, replace_outbound) (simp (free, map-append, append_assoc, append-nil))
