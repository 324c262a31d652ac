-- ===== src/Blob/Handler.antt =====
-- protocols/owlnest-blob/src/handler.rs: one connection's handler. A stream is a number. A running
-- `recv` is the stream that it reads; a running `send` is the arguments of its call. What polling
-- these futures and the timer gives is an argument of `poll`. Texts of foreign errors come with them; the
-- text of a report of an unreadable message is shortened to its first words.
pub mod RoundTrip
pub mod Queueing
pub mod Unsupported
pub mod Flush
pub mod Examples
use owl_nest.Base.{
  ℕ, String, Bool, true, false, Option, none, some, List, [], ◌∷◌, ◌++◌, length, ltb, ◌==◌, nat_key,
  if◌then◌else◌,
}
use owl_nest.Blob.Types.{
  Bytes, Callback, Config, Error, FromBehaviourEvent, ToBehaviourEvent, Run, done, panicked, ◌>>=◌,
}
use mathlib.Core.Option
use owl_nest.Blob.Wire.{
  Prost, from_incoming_file, from_accept_file, from_cancel_send, from_cancel_recv, from_file_chunk,
}

abbrev pub Stream : Type 0
Stream = ℕ

-- `inactive reported`, or active.
pub data State : Type 0 where
  inactive : Bool → State
  active : State

-- The callbacks of the source are `Option`s that always hold one.
pub data SendType : Type 0 where
  control_send : Callback → ℕ → SendType
  control_recv : Callback → SendType
  cancel : SendType
  file_send : ℕ → SendType

-- A call `protocol::send(stream, bytes, message_type)` that is under way.
pub record Sending : Type 0 where
  pub stream : Stream
  pub bytes : Bytes
  pub message_type : ℕ

pub data OutboundState : Type 0 where
  open_stream : OutboundState
  idle : Stream → OutboundState
  busy : Sending → SendType → OutboundState

-- `Ok(local_send_id)` or `Ok(rtt)` on a callback.
pub data HandlerReply : Type 0 where
  send_acknowledged : Callback → ℕ → HandlerReply
  recv_acknowledged : Callback → ℕ → HandlerReply

-- `started` and `replies` are no fields of the source: they record the calls of `send` and what was
-- sent on callbacks, in order.
pub record Handler : Type 0 where
  pub state : State
  pub pending_in_events : List FromBehaviourEvent
  pub pending_out_events : List ToBehaviourEvent
  pub timeout_ms : ℕ
  pub inbound : Option Stream
  pub outbound : Option OutboundState
  pub started : List Sending
  pub replies : List HandlerReply

unfoldable pub new : Config → Handler
new config = record {
  state = active;
  pending_in_events = [];
  pending_out_events = [];
  timeout_ms = config.timeout_ms;
  inbound = none;
  outbound = none;
  started = [];
  replies = [];
}

-- What `poll` hands to the swarm.
pub data HandlerEvent : Type 0 where
  notify_behaviour : ToBehaviourEvent → HandlerEvent
  outbound_substream_request : HandlerEvent

-- One poll of a running `recv`, and one of a running `send` with its timer.
pub data RecvPoll : Type 0 where
  waiting : RecvPoll
  received : Stream → Bytes → ℕ → RecvPoll
  broken : String → RecvPoll

pub data SendPoll : Type 0 where
  waiting : Bool → SendPoll
  sent : Stream → ℕ → SendPoll
  broken : String → SendPoll

abbrev pub report : Handler → ToBehaviourEvent → Handler
report h ev = record h { pending_out_events = h.pending_out_events ++ ev ∷ [] }

unfoldable pub on_behaviour_event : Handler → FromBehaviourEvent → Handler
on_behaviour_event h ev = record h { pending_in_events = h.pending_in_events ++ ev ∷ [] }

module _ (prost : Prost) where
  -- The event that a message stands for; `none` is a decoding error.
  unfoldable pub decode : Bytes → ℕ → Option ToBehaviourEvent
  unfolding from_incoming_file from_accept_file from_cancel_send from_cancel_recv from_file_chunk
  decode bytes message_type =
      if message_type == 0
      then Option.map from_incoming_file (prost.decode_incoming_file bytes)
      else if message_type == 1
      then Option.map from_accept_file (prost.decode_accept_file bytes)
      else if message_type == 2
      then Option.map from_cancel_send (prost.decode_cancel_send bytes)
      else if message_type == 3
      then Option.map from_cancel_recv (prost.decode_cancel_recv bytes)
      else if message_type == 4
      then Option.map from_file_chunk (prost.decode_file_chunk bytes)
      else some (ToBehaviourEvent.error (Error.io "Unexpected header value"))

  -- Whether the message could be read, and the handler after it.
  unfoldable pub on_message : Handler → Bytes → ℕ → Bool × Handler
  unfolding decode
  on_message h bytes message_type = elim (decode bytes message_type) [
    | some ev ↦ (true, report h ev)
    | none ↦ (false, h)
  ]

  -- The message, its type and the kind of send that an event of the behaviour becomes.
  unfoldable pub encode : FromBehaviourEvent → Bytes × ℕ × SendType
  encode (FromBehaviourEvent.new_file_send file_name local_send_id callback bytes_total) = (
    prost.encode_incoming_file (record {
      remote_send_id = local_send_id;
      bytes_total = bytes_total;
      file_name = file_name;
    }),
    0,
    control_send callback local_send_id,
  )
  encode (FromBehaviourEvent.accept_file remote_send_id callback) = (
    prost.encode_accept_file (record { local_send_id = remote_send_id }),
    1,
    control_recv callback,
  )
  encode (FromBehaviourEvent.local_cancel_send local_send_id) =
      (prost.encode_cancel_send (record { remote_send_id = local_send_id }), 2, cancel)
  encode (FromBehaviourEvent.local_cancel_recv remote_send_id) =
      (prost.encode_cancel_recv (record { local_send_id = remote_send_id }), 3, cancel)
  encode (FromBehaviourEvent.file_chunk local_send_id bytes_to_send) = (
    prost.encode_file_chunk (record { remote_send_id = local_send_id; content = bytes_to_send }),
    4,
    file_send local_send_id,
  )

  unfoldable pub progress_outbound : Handler → FromBehaviourEvent → Stream → Handler
  unfolding encode
  progress_outbound h ev stream =
      let (bytes, message_type, send_type) = encode ev in
      let sending : Sending = record {
        stream = stream;
        bytes = bytes;
        message_type = message_type;
      } in
      record h { outbound = some (busy sending send_type); started = h.started ++ sending ∷ [] }

  -- A message came whole: the next `recv` starts, and a message that cannot be read is reported
  -- with its first 20 bytes, which panics if there are fewer.
  unfoldable pub poll_inbound : RecvPoll → Handler → Run (Option HandlerEvent × Handler)
  unfolding on_message
  poll_inbound answer h = elim h.inbound [
    | none ↦ done (none, h)
    | some reading ↦ elim answer [
      | waiting ↦ done (none, h)
      | broken e ↦ done (
        some (notify_behaviour (ToBehaviourEvent.error (Error.io e))),
        record h { inbound = none },
      )
      | received stream bytes message_type ↦
          let (ok, h') = on_message (record h { inbound = some stream }) bytes message_type in
          if ok
          then done (none, h')
          else if ltb (length bytes) 20
          then panicked
          else done (
            none,
            report h' (ToBehaviourEvent.error (Error.unrecognized_message "Unrecognized message")),
          )
    ]
  ]

  -- A send has ended well.
  unfoldable pub on_sent : SendType → ℕ → Handler → Handler
  on_sent (control_send callback local_send_id) rtt h =
      record (report h (ToBehaviourEvent.file_send_pending local_send_id)) {
        replies = h.replies ++ send_acknowledged callback local_send_id ∷ [];
      }
  on_sent (control_recv callback) rtt h = record h {
    replies = h.replies ++ recv_acknowledged callback rtt ∷ [];
  }
  on_sent (file_send id) rtt h = report h (ToBehaviourEvent.send_progressed id)
  on_sent cancel rtt h = h

  -- The loop of poll_outbound while a send is under way, one answer for each time it is polled; when
  -- none are left the send waits.
  unfoldable pub poll_busy :
      List SendPoll → Handler → Sending → SendType → Option HandlerEvent × Handler
  unfolding progress_outbound on_sent
  poll_busy [] h sending send_type = (none, record h { outbound = some (busy sending send_type) })
  poll_busy (waiting false ∷ answers) h sending send_type =
      (none, record h { outbound = some (busy sending send_type) })
  poll_busy (waiting true ∷ answers) h sending send_type = (
    some (notify_behaviour (ToBehaviourEvent.error (Error.io "Timeout"))),
    record h { outbound = none },
  )
  poll_busy (broken e ∷ answers) h sending send_type =
      (some (notify_behaviour (ToBehaviourEvent.error (Error.io e))), record h { outbound = none })
  poll_busy (sent stream rtt ∷ answers) h sending send_type =
      let h' = on_sent send_type rtt h in
      elim h'.pending_in_events [
        | [] ↦ (none, record h' { outbound = some (idle stream) })
        | ev ∷ rest ↦
            let (bytes, message_type, next_type) = encode ev in
            let h'' = progress_outbound (record h' { pending_in_events = rest }) ev stream in
            poll_busy answers h''
              (record { stream = stream; bytes = bytes; message_type = message_type }) next_type
      ]

  unfoldable pub poll_outbound : List SendPoll → Handler → Option HandlerEvent × Handler
  unfolding poll_busy
  poll_outbound answers h = elim h.outbound [
    | none ↦ (some outbound_substream_request, record h { outbound = some open_stream })
    | some open_stream ↦ (none, h)
    | some (busy sending send_type) ↦ poll_busy answers h sending send_type
    | some (idle stream) ↦ elim h.pending_in_events [
      | [] ↦ (none, h)
      | ev ∷ rest ↦
          let (bytes, message_type, send_type) = encode ev in
          let h' = progress_outbound (record h { pending_in_events = rest }) ev stream in
          poll_busy answers h'
            (record { stream = stream; bytes = bytes; message_type = message_type }) send_type
    ]
  ]

  unfoldable pub pop_report : Handler → List ToBehaviourEvent → Option HandlerEvent × Handler
  pop_report h [] = (none, h)
  pop_report h (ev ∷ rest) = (some (notify_behaviour ev), record h { pending_out_events = rest })

  unfoldable pub or_else :
      Option HandlerEvent × Handler
      → (Handler → Option HandlerEvent × Handler)
      → Option HandlerEvent × Handler
  or_else (some ev, h) next = (some ev, h)
  or_else (none, h) next = next h

  unfoldable pub poll_active :
      RecvPoll → List SendPoll → Handler → Run (Option HandlerEvent × Handler)
  unfolding poll_inbound or_else pop_report
  poll_active answer answers h = do
    first ← poll_inbound answer h
    done (
        or_else first
          λ h'. or_else (poll_outbound answers h') λ h''. pop_report h'' h''.pending_out_events)

  -- `none` is `Pending`.
  unfoldable pub poll : RecvPoll → List SendPoll → Handler → Run (Option HandlerEvent × Handler)
  unfolding poll_active
  poll answer answers h = elim h.state [
    | inactive true ↦ done (none, h)
    | inactive false ↦
        done
          (some (notify_behaviour ToBehaviourEvent.unsupported), record h { state = inactive true })
    | active ↦ poll_active answer answers h
  ]

-- libp2p's `ConnectionEvent`, as far as it is handled; `uncovered` stands for those that are not.
pub data ConnectionEvent : Type 0 where
  fully_negotiated_inbound : Stream → ConnectionEvent
  fully_negotiated_outbound : Stream → ConnectionEvent
  dial_upgrade_error : Bool → ConnectionEvent
  protocols_change : ConnectionEvent
  uncovered : ConnectionEvent

-- `negotiation_failed` tells that kind of error from all others.
unfoldable pub on_dial_upgrade_error : Handler → Bool → Handler
on_dial_upgrade_error h negotiation_failed =
    if negotiation_failed
    then record h { outbound = none; state = inactive false }
    else record h { outbound = none }

unfoldable pub on_connection_event : Handler → ConnectionEvent → Run Handler
unfolding on_dial_upgrade_error
on_connection_event h (fully_negotiated_inbound stream) =
    done (report (record h { inbound = some stream }) ToBehaviourEvent.inbound_negotiated)
on_connection_event h (fully_negotiated_outbound stream) =
    done (report (record h { outbound = some (idle stream) }) ToBehaviourEvent.outbound_negotiated)
on_connection_event h (dial_upgrade_error negotiation_failed) =
    done (on_dial_upgrade_error h negotiation_failed)
on_connection_event h protocols_change = done h
on_connection_event h uncovered = panicked
