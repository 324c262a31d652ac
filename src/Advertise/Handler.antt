-- ===== src/Advertise/Handler.antt =====
-- protocols/owlnest-advertise/src/handler.rs: one connection's handler. A stream is a number, a
-- running `recv` is the stream that it reads, a running `send` its stream and bytes. What polling these
-- futures and the timer gives is an argument of `poll`.
pub mod Delivery
pub mod Retries
use owl_nest.Base.{
  ℕ, ◌≡◌, String, Bool, true, false, Option, none, some, List, [], ◌∷◌, ◌++◌, if◌then◌else◌,
}
use mathlib.Core.Logic.{◌⊎◌, inl, inr}
use owl_nest.Blob.Types.{Run, done, panicked}
use owl_nest.Advertise
use owl_nest.Advertise.{PeerId, Error, FromBehaviour, ToBehaviour}

abbrev pub Bytes : Type 0
Bytes = List ℕ

abbrev pub Stream : Type 0
Stream = ℕ

pub data Packet : Type 0 where
  advertise_self : Bool → Packet
  query_advertised_peer : Packet
  answer_advertised_peer : Option (List PeerId) → Packet

unfoldable pub from_packet : Packet → ToBehaviour
from_packet (advertise_self state) = ToBehaviour.incoming_advertise_req state
from_packet query_advertised_peer = ToBehaviour.incoming_query
from_packet (answer_advertised_peer result) = ToBehaviour.query_answered result

-- serde_json on packets: what it writes it reads back, and an error is its text.
pub record Json : Type 0 where
  pub to_vec : Packet → Bytes
  pub from_slice : Bytes → String ⊎ Packet
  pub from_slice-to_vec : (packet : Packet) → from_slice (to_vec packet) ≡ inr packet

-- `inactive reported`, or active.
pub data State : Type 0 where
  inactive : Bool → State
  active : State

pub record Sending : Type 0 where
  pub stream : Stream
  pub bytes : Bytes

pub data OutboundState : Type 0 where
  open_stream : OutboundState
  idle : Stream → OutboundState
  busy : Sending → OutboundState

-- `started` is no field of the source: it records the sends that were started, in order.
pub record Handler : Type 0 where
  pub state : State
  pub pending_in_events : List FromBehaviour
  pub pending_out_events : List ToBehaviour
  pub timeout_ms : ℕ
  pub inbound : Option Stream
  pub outbound : Option OutboundState
  pub started : List Sending

unfoldable pub new : Handler
new = record {
  state = active;
  pending_in_events = [];
  pending_out_events = [];
  timeout_ms = 20000;
  inbound = none;
  outbound = none;
  started = [];
}

pub data HandlerEvent : Type 0 where
  notify_behaviour : ToBehaviour → HandlerEvent
  outbound_substream_request : HandlerEvent

-- One poll of a running `recv`, and one of a running `send`; `waiting` says whether its time is over.
pub data RecvPoll : Type 0 where
  waiting : RecvPoll
  received : Stream → Bytes → RecvPoll
  broken : String → RecvPoll

pub data SendPoll : Type 0 where
  waiting : Bool → SendPoll
  sent : Stream → ℕ → SendPoll
  broken : String → SendPoll

unfoldable pub on_behaviour_event : Handler → FromBehaviour → Handler
on_behaviour_event h event = record h { pending_in_events = h.pending_in_events ++ event ∷ [] }

unfoldable pub report : Handler → ToBehaviour → Handler
report h event = record h { pending_out_events = h.pending_out_events ++ event ∷ [] }

-- The packet that a request becomes.
unfoldable pub packet_of : FromBehaviour → Packet
packet_of FromBehaviour.query_advertised_peer = query_advertised_peer
packet_of (FromBehaviour.answer_advertised_peer result) = answer_advertised_peer result
packet_of (FromBehaviour.set_advertise_self state) = advertise_self state

-- A message was read, or it could not be.
unfoldable pub on_read : String ⊎ Packet → Handler → Handler
unfolding report from_packet
on_read (inr packet) h = report h (from_packet packet)
on_read (inl e) h = report h (ToBehaviour.error (Error.unrecognized_message e))

module _ (json : Json) where
  unfoldable pub poll_inbound : RecvPoll → Handler → Handler
  unfolding report on_read
  poll_inbound answer h = elim h.inbound [
    | none ↦ h
    | some reading ↦ elim answer [
      | waiting ↦ h
      | broken e ↦ record (report h (ToBehaviour.error (Error.io e))) { inbound = none }
      | received stream bytes ↦ on_read (json.from_slice bytes) (record h { inbound = some stream })
    ]
  ]

  abbrev pub sending_of : FromBehaviour → Stream → Sending
  sending_of ev stream = record { stream = stream; bytes = json.to_vec (packet_of ev) }

  -- The sending of a request that was taken from the queue.
  unfoldable pub start : Handler → FromBehaviour → List FromBehaviour → Stream → Handler
  unfolding packet_of
  start h ev rest stream = record h {
    pending_in_events = rest;
    outbound = some (busy (sending_of ev stream));
    started = h.started ++ sending_of ev stream ∷ [];
  }

  -- The branch of poll_outbound without a stream.
  unfoldable pub ask : Handler → Option HandlerEvent × Handler
  ask h = (some outbound_substream_request, record h { outbound = some open_stream })

  -- The loop of poll_outbound while a send is under way, one answer for each time it is polled; when
  -- none are left the send waits.
  unfoldable pub poll_busy : List SendPoll → Handler → Sending → Option HandlerEvent × Handler
  unfolding report start ask
  poll_busy [] h sending = (none, record h { outbound = some (busy sending) })
  poll_busy (waiting false ∷ answers) h sending =
      (none, record h { outbound = some (busy sending) })
  poll_busy (waiting true ∷ answers) h sending = ask (report h (ToBehaviour.error Error.timeout))
  poll_busy (broken e ∷ answers) h sending = ask (report h (ToBehaviour.error (Error.io e)))
  poll_busy (sent stream rtt ∷ answers) h sending = elim h.pending_in_events [
    | [] ↦ (none, record h { outbound = some (idle stream) })
    | ev ∷ rest ↦ poll_busy answers (start h ev rest stream) (sending_of ev stream)
  ]

  unfoldable pub poll_outbound : List SendPoll → Handler → Option HandlerEvent × Handler
  unfolding poll_busy
  poll_outbound answers h = elim h.outbound [
    | none ↦ ask h
    | some open_stream ↦ (none, h)
    | some (busy sending) ↦ poll_busy answers h sending
    | some (idle stream) ↦ elim h.pending_in_events [
      | [] ↦ (none, h)
      | ev ∷ rest ↦ poll_busy answers (start h ev rest stream) (sending_of ev stream)
    ]
  ]

  unfoldable pub pop_report : Option HandlerEvent × Handler → Option HandlerEvent × Handler
  pop_report (some ev, h) = (some ev, h)
  pop_report (none, h) = elim h.pending_out_events [
    | [] ↦ (none, h)
    | ev ∷ rest ↦ (some (notify_behaviour ev), record h { pending_out_events = rest })
  ]

  -- `none` is `Pending`.
  unfoldable pub poll : RecvPoll → List SendPoll → Handler → Option HandlerEvent × Handler
  unfolding poll_inbound poll_outbound pop_report
  poll answer answers h = elim h.state [
    | inactive true ↦ (none, h)
    | inactive false ↦
        pop_report
          (poll_outbound answers (poll_inbound answer (record h { state = inactive true })))
    | active ↦ pop_report (poll_outbound answers (poll_inbound answer h))
  ]

-- libp2p's `ConnectionEvent`, as far as it is handled; `uncovered` stands for those that are not.
pub data ConnectionEvent : Type 0 where
  fully_negotiated_inbound : Stream → ConnectionEvent
  fully_negotiated_outbound : Stream → ConnectionEvent
  dial_upgrade_error : Bool → ConnectionEvent
  protocols_change : ConnectionEvent
  uncovered : ConnectionEvent

-- `negotiation_failed` tells that kind of error from all others.
unfoldable pub on_dial_upgrade_error : Handler → Bool → Handler
on_dial_upgrade_error h negotiation_failed =
    if negotiation_failed
    then record h { outbound = none; state = inactive false }
    else record h { outbound = none }

unfoldable pub on_connection_event : Handler → ConnectionEvent → Run Handler
unfolding on_dial_upgrade_error report
on_connection_event h (fully_negotiated_inbound stream) =
    done (report (record h { inbound = some stream }) ToBehaviour.inbound_negotiated)
on_connection_event h (fully_negotiated_outbound stream) =
    done (report (record h { outbound = some (idle stream) }) ToBehaviour.outbound_negotiated)
on_connection_event h (dial_upgrade_error negotiation_failed) =
    done (on_dial_upgrade_error h negotiation_failed)
on_connection_event h protocols_change = done h
on_connection_event h uncovered = panicked
