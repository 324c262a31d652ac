-- ===== src/Hyper.antt =====
-- protocols/owlnest-hyper/src/handler.rs: a handler that is meant to serve and to send HTTP requests on
-- the streams of a connection. A request and a callback are numbers, and a stream is where it stands;
-- what polling the tasks and channels gives is an argument of `poll`.
pub mod Turns
pub mod Requests
pub mod Runs
pub mod Examples
use owl_nest.Base.{ℕ, Bool, true, false, Option, none, some, List, [], ◌∷◌, ◌++◌, if◌then◌else◌}
use owl_nest.Blob.Types.{Run, done, panicked, stuck}

abbrev pub Request : Type 0
Request = ℕ

abbrev pub Callback : Type 0
Callback = ℕ

pub data FromBehaviourEvent : Type 0 where
  request : Request → Callback → FromBehaviourEvent

pub data ToBehaviourEvent : Type 0 where
  error : ToBehaviourEvent
  inbound_negotiated : ToBehaviourEvent
  outbound_negotiated : ToBehaviourEvent
  unsupported : ToBehaviourEvent

-- `inactive reported`, or active.
pub data State : Type 0 where
  inactive : Bool → State
  active : State

pub data StreamState : Type 0 where
  negotiating : StreamState
  ready : StreamState
  consumed : StreamState

pub data ClientState : Type 0 where
  ready : ClientState
  opening : ClientState

-- A tap is there or not; its messages are printed only.
pub record Handler : Type 0 where
  pub state : State
  pub pending_in_events : List FromBehaviourEvent
  pub pending_out_events : List ToBehaviourEvent
  pub inbound_stream : Option StreamState
  pub outbound_stream : Option StreamState
  pub server_event_tap : Bool
  pub client_event_tap : Bool
  pub client : Option ClientState
  pub ongoing_request : Option (Request × Callback)
  pub pending_requests : List (Request × Callback)

unfoldable pub new : Handler
new = record {
  state = active;
  pending_in_events = [];
  pending_out_events = [];
  inbound_stream = none;
  outbound_stream = none;
  server_event_tap = false;
  client_event_tap = false;
  client = none;
  ongoing_request = none;
  pending_requests = [];
}

pub data HandlerEvent : Type 0 where
  notify_behaviour : ToBehaviourEvent → HandlerEvent
  outbound_substream_request : HandlerEvent

-- The task that opens a client: under way, done, or failed; and a channel: empty, with a message, or
-- without its sender.
pub data ClientPoll : Type 0 where
  waiting : ClientPoll
  opened : ClientPoll
  failed : ClientPoll

pub data TapPoll : Type 0 where
  waiting : TapPoll
  message : TapPoll
  dropped : TapPoll

-- What one turn of the loop in `poll` finds.
pub record Round : Type 0 where
  pub client : ClientPoll
  pub server_events : TapPoll
  pub client_events : TapPoll

-- What becomes of a turn after one of its parts: it goes on, the loop is left, `poll` returns an event,
-- or it panics.
pub data Turn : Type 0 where
  go_on : Handler → Turn
  leave : Handler → Turn
  give : HandlerEvent → Handler → Turn
  panic : Turn

unfoldable pub and_then : Turn → (Handler → Turn) → Turn
and_then (go_on h) f = f h
and_then (leave h) f = leave h
and_then (give ev h) f = give ev h
and_then panic f = panic

unfoldable pub check_inbound : Handler → Turn
check_inbound h = elim h.inbound_stream [
  | some negotiating ↦ leave h
  | some ready ↦ go_on (record h { server_event_tap = true; inbound_stream = some consumed })
  | some consumed ↦ go_on h
  | none ↦ go_on h
]

-- A stream that is ready is taken, and nothing is put in its place.
unfoldable pub check_outbound : Handler → Turn
check_outbound h = elim h.outbound_stream [
  | some negotiating ↦ leave h
  | some ready ↦
      go_on (record h { outbound_stream = none; client = some opening; client_event_tap = true })
  | some consumed ↦ go_on h
  | none ↦ give outbound_substream_request (record h { outbound_stream = some negotiating })
]

-- A client that is ready is taken, and not put back.
unfoldable pub check_client : ClientPoll → Handler → Turn
check_client answer h = elim h.client [
  | some ready ↦ elim h.ongoing_request [
    | none ↦ elim h.pending_requests [
      | [] ↦ leave (record h { client = none })
      | r ∷ rest ↦
          leave (record h { client = none; ongoing_request = some r; pending_requests = rest })
    ]
    | some r ↦ go_on (record h { client = none })
  ]
  | some opening ↦ elim answer [
    | opened ↦ go_on (record h { client = some ready })
    | waiting ↦ leave h
    | failed ↦ panic
  ]
  | none ↦ go_on (record h { outbound_stream = none })
]

unfoldable pub check_server_events : TapPoll → Handler → Turn
check_server_events dropped h =
    if h.server_event_tap
    then leave (record h { server_event_tap = false; inbound_stream = none })
    else go_on h
check_server_events _ h = go_on h

-- The tap that is given up is that of the server.
unfoldable pub check_client_events : TapPoll → Handler → Turn
check_client_events dropped h =
    if h.client_event_tap
    then leave (record h { server_event_tap = false; outbound_stream = none })
    else go_on h
check_client_events _ h = go_on h

unfoldable pub turn : Round → Handler → Turn
unfolding and_then check_inbound check_outbound check_client check_server_events check_client_events
turn r h = and_then (check_inbound h) λ h. and_then (check_outbound h) λ h.
    and_then (check_client r.client h) λ h.
      and_then (check_server_events r.server_events h) λ h. check_client_events r.client_events h

unfoldable pub pop_report : Handler → Option HandlerEvent × Handler
pop_report h = elim h.pending_out_events [
  | [] ↦ (none, h)
  | ev ∷ rest ↦ (some (notify_behaviour ev), record h { pending_out_events = rest })
]

-- The loop, one round for each turn; without another round it does not end.
unfoldable pub poll_loop : List Round → Handler → Run (Option HandlerEvent × Handler)
unfolding turn pop_report
poll_loop [] h = stuck
poll_loop (r ∷ rest) h = elim (turn r h) [
  | go_on h' ↦ poll_loop rest h'
  | leave h' ↦ done (pop_report h')
  | give ev h' ↦ done (some ev, h')
  | panic ↦ panicked
]

-- `none` is `Pending`.
unfoldable pub poll : List Round → Handler → Run (Option HandlerEvent × Handler)
unfolding poll_loop
poll rounds h = elim h.state [
  | inactive true ↦ done (none, h)
  | inactive false ↦
      done
        (some (notify_behaviour ToBehaviourEvent.unsupported), record h { state = inactive true })
  | active ↦ poll_loop rounds h
]

unfoldable pub on_behaviour_event : Handler → FromBehaviourEvent → Handler
on_behaviour_event h event = record h { pending_in_events = h.pending_in_events ++ event ∷ [] }

-- libp2p's `ConnectionEvent`, as far as it is handled; `uncovered` stands for those that are not.
pub data ConnectionEvent : Type 0 where
  fully_negotiated_inbound : ConnectionEvent
  fully_negotiated_outbound : ConnectionEvent
  dial_upgrade_error : Bool → ConnectionEvent
  address_change : ConnectionEvent
  protocols_change : ConnectionEvent
  uncovered : ConnectionEvent

-- `negotiation_failed` tells that kind of error from all others.
unfoldable pub on_dial_upgrade_error : Handler → Bool → Handler
on_dial_upgrade_error h negotiation_failed =
    if negotiation_failed
    then record h { inbound_stream = none; state = inactive false }
    else record h { inbound_stream = none }

unfoldable pub on_connection_event : Handler → ConnectionEvent → Run Handler
unfolding on_dial_upgrade_error
on_connection_event h fully_negotiated_inbound = done (record h {
  inbound_stream = some StreamState.ready;
  pending_out_events = h.pending_out_events ++ inbound_negotiated ∷ [];
})
on_connection_event h fully_negotiated_outbound = done (record h {
  outbound_stream = some StreamState.ready;
  pending_out_events = h.pending_out_events ++ outbound_negotiated ∷ [];
})
on_connection_event h (dial_upgrade_error negotiation_failed) =
    done (on_dial_upgrade_error h negotiation_failed)
on_connection_event h address_change = done h
on_connection_event h protocols_change = done h
on_connection_event h uncovered = panicked
