-- ===== src/Advertise/Handler/Delivery.antt =====
-- What one handler of owlnest-advertise sends and the handler of the other peer makes of it.
use mathlib.Core.List.{append_assoc, append-nil, map-append}
use owl_nest.Base.{
  ℕ, suc, ◌≡◌, refl, sym, ◌∙◌, ap, Option, some, none, List, [], ◌∷◌, ◌++◌, map, arith, length,
}
use owl_nest.Advertise.{FromBehaviour, ToBehaviour}
use owl_nest.Advertise.Handler.{
  Json, Handler, Stream, Bytes, Sending, idle, RecvPoll, SendPoll, sent, HandlerEvent, packet_of,
  from_packet, on_read, poll_inbound, start, sending_of, poll_busy, poll_outbound, report,
}

-- A send that ends well: the stream comes back, with the time it took.
abbrev pub succeeded : Stream × ℕ → SendPoll
succeeded (stream, rtt) = sent stream rtt

-- What the other side is to be told of a request.
abbrev pub counterpart : FromBehaviour → ToBehaviour
counterpart FromBehaviour.query_advertised_peer = ToBehaviour.incoming_query
counterpart (FromBehaviour.answer_advertised_peer result) = ToBehaviour.query_answered result
counterpart (FromBehaviour.set_advertise_self state) = ToBehaviour.incoming_advertise_req state

read_back : (ev : FromBehaviour) → from_packet (packet_of ev) ≡ counterpart ev
unfolding from_packet packet_of
read_back FromBehaviour.query_advertised_peer = refl
read_back (FromBehaviour.answer_advertised_peer result) = refl
read_back (FromBehaviour.set_advertise_self state) = refl

module _ (json : Json) where
  abbrev pub sent_bytes : Handler → List Bytes
  sent_bytes h = map (λ (s : Sending). s.bytes) h.started

  abbrev pub message : FromBehaviour → Bytes
  message ev = json.to_vec (packet_of ev)

  -- Nothing waits, the stream is free, and these messages were started.
  abbrev pub Sent : List Bytes → Option HandlerEvent × Handler → Type 0
  Sent messages (event, h) =
      (event ≡ none)
      × (h.pending_in_events ≡ [])
      × ((stream : Stream) × (h.outbound ≡ some (idle stream)))
      × (sent_bytes h ≡ messages)

  started_one :
      (h : Handler) (ev : FromBehaviour) (evs : List FromBehaviour) (stream : Stream)
      → sent_bytes (start json h ev evs stream) ++ map message evs
        ≡ sent_bytes h ++ map message (ev ∷ evs)
  unfolding start
  started_one h ev evs stream = simp (map-append, append_assoc)

  poll_busy-Sent :
      (answers : List (Stream × ℕ)) (evs : List FromBehaviour) (h : Handler) (s : Sending)
      → h.pending_in_events ≡ evs
      → length answers ≡ suc (length evs)
      → Sent (sent_bytes h ++ map message evs) (poll_busy json (map succeeded answers) h s)
  unfolding poll_busy start
  poll_busy-Sent [] evs h s e n = absurd (ground arith)
  poll_busy-Sent ((stream, rtt) ∷ answers) [] h s e n =
      rw (e, poll_busy) (refl, e, (stream, refl), sym (append-nil _))
  poll_busy-Sent ((stream, rtt) ∷ answers) (ev ∷ evs) h s e n =
      let (x, y, z, w) =
        poll_busy-Sent answers evs (start json h ev evs stream) (sending_of json ev stream) refl
          (omega arith) in
      rw (e, poll_busy) (x, y, z, w ∙ started_one h ev evs stream)

  poll_outbound-Sent :
      (answers : List (Stream × ℕ)) (evs : List FromBehaviour) (stream : Stream) (h : Handler)
      → h.pending_in_events ≡ evs
      → h.outbound ≡ some (idle stream)
      → length answers ≡ length evs
      → Sent (sent_bytes h ++ map message evs) (poll_outbound json (map succeeded answers) h)
  unfolding poll_outbound start
  poll_outbound-Sent answers [] stream h f e n =
      rw (e, f, poll_outbound) (refl, f, (stream, e), sym (append-nil _))
  poll_outbound-Sent answers (ev ∷ evs) stream h f e n =
      let (x, y, z, w) =
        poll_busy-Sent answers evs (start json h ev evs stream) (sending_of json ev stream) refl
          n in
      rw (e, f, poll_outbound) (x, y, z, w ∙ started_one h ev evs stream)

  -- The messages come in one after the other, on one stream.
  unfoldable pub receive_all : Stream → List Bytes → Handler → Handler
  receive_all stream [] h = h
  receive_all stream (bytes ∷ rest) h =
      receive_all stream rest (poll_inbound json (RecvPoll.received stream bytes) h)

  poll_inbound-message :
      (stream reading : Stream) (ev : FromBehaviour) (h : Handler)
      → h.inbound ≡ some reading
      → poll_inbound json (RecvPoll.received stream (message ev)) h
        ≡ report (record h { inbound = some stream }) (counterpart ev)
  unfolding poll_inbound on_read packet_of from_packet
  poll_inbound-message stream reading ev h e =
      rw (e, poll_inbound, json.from_slice-to_vec (packet_of ev))
        (ap (report (record h { inbound = some stream })) (read_back ev))

  receive_all-messages :
      (stream reading : Stream) (evs : List FromBehaviour) (h : Handler)
      → h.inbound ≡ some reading
      → (receive_all stream (map message evs) h).pending_out_events
        ≡ h.pending_out_events ++ map counterpart evs
  unfolding receive_all report
  receive_all-messages stream reading [] h e = sym (append-nil _)
  receive_all-messages stream reading (ev ∷ evs) h e =
      rw (poll_inbound-message stream reading ev h e, receive_all)
        (receive_all-messages stream stream evs _ refl
          ∙ append_assoc h.pending_out_events (counterpart ev ∷ []) (map counterpart evs))

  -- If the stream of a handler is idle and there is a send that ends well for each waiting request, one
  -- call of poll_outbound leaves none waiting and the stream idle, and has started one message for each
  -- after those started before; and when these messages come in order to a handler of the other peer
  -- that reads from a stream, it has the counterparts of the requests, in order, for its behaviour.
  pub requests_delivered :
      (answers : List (Stream × ℕ)) (from to reading : Stream) (h h' : Handler)
      → h.outbound ≡ some (idle from)
      → length answers ≡ length h.pending_in_events
      → h'.inbound ≡ some reading
      → (messages : List Bytes) × Sent
          (sent_bytes h ++ messages)
          (poll_outbound json (map succeeded answers) h)
        × ((receive_all to messages h').pending_out_events
            ≡ h'.pending_out_events ++ map counterpart h.pending_in_events)
  requests_delivered answers from to reading h h' e n e' = (
    map message h.pending_in_events,
    poll_outbound-Sent answers h.pending_in_events from h refl e n,
    receive_all-messages to reading h.pending_in_events h' e',
  )
