-- ===== src/Messaging/Handler.antt =====
-- protocols/owlnest-messaging/src/handler.rs: one connection's handler. A stream is a number, a
-- running `recv` is the stream that it reads, a running `send` its stream and bytes. What polling
-- these futures and the timer gives is an argument of `poll`. serde_json's `to_vec` is an argument.
pub mod Callbacks
pub mod Runs
use owl_nest.Base.{
  ℕ, String, Bool, true, false, Option, none, some, List, [], ◌∷◌, ◌++◌, if◌then◌else◌,
}
use owl_nest.Blob.Types.{Run, done, panicked}
use owl_nest.Messaging.{
  Bytes, Callback, Config, Error, SendError, Message, FromBehaviourEvent, post_message,
  ToBehaviourEvent,
}

abbrev pub Stream : Type 0
Stream = ℕ

-- `inactive reported`, or active.
pub data State : Type 0 where
  inactive : Bool → State
  active : State

pub record Sending : Type 0 where
  pub stream : Stream
  pub bytes : Bytes

pub data OutboundState : Type 0 where
  open_stream : OutboundState
  idle : Stream → OutboundState
  busy : Sending → Callback → OutboundState

-- What becomes of a callback: an answer, or it is dropped with the send that it belongs to.
pub data Settled : Type 0 where
  sent_in : ℕ → Settled
  failed : SendError → Settled
  dropped : Settled

-- `settled` is no field of the source: it records what became of callbacks, in order.
pub record Handler : Type 0 where
  pub state : State
  pub pending_in_events : List FromBehaviourEvent
  pub pending_out_events : List ToBehaviourEvent
  pub timeout_ms : ℕ
  pub inbound : Option Stream
  pub outbound : Option OutboundState
  pub settled : List (Callback × Settled)

unfoldable pub new : Config → Handler
new config = record {
  state = active;
  pending_in_events = [];
  pending_out_events = [];
  timeout_ms = config.timeout_ms;
  inbound = none;
  outbound = none;
  settled = [];
}

pub data HandlerEvent : Type 0 where
  notify_behaviour : ToBehaviourEvent → HandlerEvent
  outbound_substream_request : HandlerEvent

-- One poll of a running `recv`, and one of a running `send` with its timer.
pub data RecvPoll : Type 0 where
  waiting : RecvPoll
  received : Stream → Bytes → RecvPoll
  broken : String → RecvPoll

pub data SendPoll : Type 0 where
  waiting : Bool → SendPoll
  sent : Stream → ℕ → SendPoll
  broken : String → SendPoll

unfoldable pub on_behaviour_event : Handler → FromBehaviourEvent → Handler
on_behaviour_event h ev = record h { pending_in_events = h.pending_in_events ++ ev ∷ [] }

unfoldable pub poll_inbound : RecvPoll → Handler → Option HandlerEvent × Handler
poll_inbound answer h = elim h.inbound [
  | none ↦ (none, h)
  | some reading ↦ elim answer [
    | waiting ↦ (none, h)
    | received stream bytes ↦ (
      some (notify_behaviour (ToBehaviourEvent.incoming_message bytes)),
      record h { inbound = some stream },
    )
    | broken e ↦ (
      none,
      record h {
        pending_out_events = h.pending_out_events ++ ToBehaviourEvent.error (Error.io e) ∷ [];
        inbound = none;
      },
    )
  ]
]

-- A handler whose send has come to an end.
unfoldable pub settle : Handler → Callback → Settled → Handler
settle h callback how = record h { outbound = none; settled = h.settled ++ (callback, how) ∷ [] }

-- The outbound state is overwritten; a send that was under way is dropped.
unfoldable pub replace_outbound : Handler → Option OutboundState → Handler
replace_outbound h o = elim h.outbound [
  | some (busy sending callback) ↦ record h {
    outbound = o;
    settled = h.settled ++ (callback, dropped) ∷ [];
  }
  | some open_stream ↦ record h { outbound = o }
  | some (idle stream) ↦ record h { outbound = o }
  | none ↦ record h { outbound = o }
]

module _ (to_vec : Message → Bytes) where
  -- The send that a request becomes.
  unfoldable pub progress_in_events : FromBehaviourEvent → Stream → Sending × Callback
  progress_in_events (post_message msg callback) stream =
      (record { stream = stream; bytes = to_vec msg }, callback)

  -- The loop of poll_outbound while a send is under way, one answer for each time it is polled; when
  -- none are left the send waits.
  unfoldable pub poll_busy :
      List SendPoll → Handler → Sending → Callback → Option HandlerEvent × Handler
  unfolding settle progress_in_events
  poll_busy [] h sending callback = (none, record h { outbound = some (busy sending callback) })
  poll_busy (waiting false ∷ answers) h sending callback =
      (none, record h { outbound = some (busy sending callback) })
  poll_busy (waiting true ∷ answers) h sending callback =
      (none, settle h callback (failed SendError.timeout))
  poll_busy (broken e ∷ answers) h sending callback =
      (some (notify_behaviour (ToBehaviourEvent.error (Error.io e))), settle h callback dropped)
  poll_busy (sent stream rtt ∷ answers) h sending callback =
      let h' = settle h callback (sent_in rtt) in
      elim h.pending_in_events [
        | [] ↦ (none, record h' { outbound = some (idle stream) })
        | ev ∷ rest ↦
            let (sending', callback') = progress_in_events ev stream in
            poll_busy answers (record h' { pending_in_events = rest }) sending' callback'
      ]

  unfoldable pub poll_outbound : List SendPoll → Handler → Option HandlerEvent × Handler
  unfolding poll_busy
  poll_outbound answers h = elim h.outbound [
    | none ↦ (some outbound_substream_request, record h { outbound = some open_stream })
    | some open_stream ↦ (none, h)
    | some (busy sending callback) ↦ poll_busy answers h sending callback
    | some (idle stream) ↦ elim h.pending_in_events [
      | [] ↦ (none, h)
      | ev ∷ rest ↦
          let (sending, callback) = progress_in_events ev stream in
          poll_busy answers (record h { pending_in_events = rest }) sending callback
    ]
  ]

  unfoldable pub pop_report : Handler → List ToBehaviourEvent → Option HandlerEvent × Handler
  pop_report h [] = (none, h)
  pop_report h (ev ∷ rest) = (some (notify_behaviour ev), record h { pending_out_events = rest })

  unfoldable pub or_else :
      Option HandlerEvent × Handler
      → (Handler → Option HandlerEvent × Handler)
      → Option HandlerEvent × Handler
  or_else (some ev, h) next = (some ev, h)
  or_else (none, h) next = next h

  -- `none` is `Pending`.
  unfoldable pub poll : RecvPoll → List SendPoll → Handler → Option HandlerEvent × Handler
  unfolding poll_inbound poll_outbound pop_report or_else
  poll answer answers h = elim h.state [
    | inactive true ↦ (none, h)
    | inactive false ↦
        (some (notify_behaviour ToBehaviourEvent.unsupported), record h { state = inactive true })
    | active ↦
        or_else (poll_inbound answer h)
          λ h'. or_else (poll_outbound answers h') λ h''. pop_report h'' h''.pending_out_events
  ]

-- libp2p's `ConnectionEvent`, as far as it is handled; `uncovered` stands for those that are not.
pub data ConnectionEvent : Type 0 where
  fully_negotiated_inbound : Stream → ConnectionEvent
  fully_negotiated_outbound : Stream → ConnectionEvent
  address_change : ConnectionEvent
  dial_upgrade_error : Bool → ConnectionEvent
  protocols_change : ConnectionEvent
  uncovered : ConnectionEvent

-- `negotiation_failed` tells that kind of error from all others.
unfoldable pub on_dial_upgrade_error : Handler → Bool → Handler
unfolding replace_outbound
on_dial_upgrade_error h negotiation_failed =
    let h' = replace_outbound h none in
    if negotiation_failed then record h' { state = inactive false } else h'

unfoldable pub on_connection_event : Handler → ConnectionEvent → Run Handler
unfolding on_dial_upgrade_error
on_connection_event h (fully_negotiated_inbound stream) = done (record h {
  inbound = some stream;
  pending_out_events = h.pending_out_events ++ ToBehaviourEvent.inbound_negotiated ∷ [];
})
on_connection_event h (fully_negotiated_outbound stream) =
    let h' = replace_outbound h (some (idle stream)) in
    done (record h' {
      pending_out_events = h'.pending_out_events ++ ToBehaviourEvent.outbound_negotiated ∷ [];
    })
on_connection_event h (dial_upgrade_error negotiation_failed) =
    done (on_dial_upgrade_error h negotiation_failed)
on_connection_event h address_change = done h
on_connection_event h protocols_change = done h
on_connection_event h uncovered = panicked
