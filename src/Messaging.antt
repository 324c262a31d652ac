-- ===== src/Messaging.antt =====
-- protocols/owlnest-messaging: the events and the behaviour, src/behaviour.rs. Messages are read by
-- serde_json, an argument; a peer and a callback are numbers.
pub mod Handler
pub mod Requests
pub mod Peers
pub mod Front
pub mod History
pub mod Examples
use owl_nest.Base.{
  ℕ, String, Bool, Option, none, some, List, [], ◌∷◌, ◌++◌, nat_key, contains, set_insert,
  set_remove, ltb, if◌then◌else◌,
}
use mathlib.Core.Logic.{◌⊎◌, inl, inr}

abbrev pub PeerId : Type 0
PeerId = ℕ

abbrev pub Callback : Type 0
Callback = ℕ

abbrev pub Bytes : Type 0
Bytes = List ℕ

pub data Store : Type 0 where
  volatile : Store

pub record Config : Type 0 where
  pub timeout_ms : ℕ
  pub store : Store

pub record Message : Type 0 where
  pub time : ℕ
  pub from : PeerId
  pub to : PeerId
  pub msg : String

pub data Error : Type 0 where
  unrecognized_message : String → Error
  io : String → Error
  channel : Error

pub data SendError : Type 0 where
  connection_closed : SendError
  verifier_mismatch : SendError
  peer_not_found : PeerId → SendError
  timeout : SendError

pub data InEvent : Type 0 where
  send_message : PeerId → Message → Callback → InEvent
  list_connected : Callback → InEvent

pub data OutEvent : Type 0 where
  incoming_message : PeerId → Message → OutEvent
  error : Error → OutEvent
  inbound_negotiated : PeerId → OutEvent
  outbound_negotiated : PeerId → OutEvent
  unsupported : PeerId → OutEvent

pub data FromBehaviourEvent : Type 0 where
  post_message : Message → Callback → FromBehaviourEvent

pub data ToBehaviourEvent : Type 0 where
  incoming_message : Bytes → ToBehaviourEvent
  error : Error → ToBehaviourEvent
  inbound_negotiated : ToBehaviourEvent
  outbound_negotiated : ToBehaviourEvent
  unsupported : ToBehaviourEvent

-- What the behaviour sends on a callback.
pub data Reply : Type 0 where
  send_failed : SendError → Reply
  connected : List PeerId → Reply

-- `replies` is no field of the source: it records what was sent on callbacks, in order.
pub record Behaviour : Type 0 where
  pub config : Config
  pub out_events : List OutEvent
  pub in_events : List InEvent
  pub connected_peers : List PeerId
  pub replies : List (Callback × Reply)

unfoldable pub new : Config → Behaviour
new config = record {
  config = config;
  out_events = [];
  in_events = [];
  connected_peers = [];
  replies = [];
}

unfoldable pub push_event : Behaviour → InEvent → Behaviour
push_event b msg = record b { in_events = b.in_events ++ msg ∷ [] }

-- `ToSwarm`.
pub data SwarmEvent : Type 0 where
  generate_event : OutEvent → SwarmEvent
  notify_handler : PeerId → FromBehaviourEvent → SwarmEvent

unfoldable pub on_disconnect : Behaviour → PeerId → ℕ → Behaviour
on_disconnect b peer remaining_established =
    if ltb remaining_established 1
    then record b { connected_peers = set_remove peer b.connected_peers }
    else b

-- `from_slice` gives a message, or the text of its error.
unfoldable pub on_handler_event :
    (Bytes → Message ⊎ String) → Behaviour → PeerId → ToBehaviourEvent → Behaviour
on_handler_event from_slice b peer (ToBehaviourEvent.incoming_message bytes) =
    let ev : OutEvent = elim (from_slice bytes) [
      | inl msg ↦ OutEvent.incoming_message msg.from msg
      | inr e ↦ OutEvent.error (Error.unrecognized_message e)
    ] in
    record b { out_events = b.out_events ++ ev ∷ [] }
on_handler_event from_slice b peer (ToBehaviourEvent.error e) = record b {
  out_events = b.out_events ++ OutEvent.error e ∷ [];
}
on_handler_event from_slice b peer ToBehaviourEvent.inbound_negotiated = record b {
  out_events = b.out_events ++ OutEvent.inbound_negotiated peer ∷ [];
}
on_handler_event from_slice b peer ToBehaviourEvent.outbound_negotiated = record b {
  out_events = b.out_events ++ OutEvent.outbound_negotiated peer ∷ [];
  connected_peers = set_insert peer b.connected_peers;
}
on_handler_event from_slice b peer ToBehaviourEvent.unsupported = record b {
  out_events = b.out_events ++ OutEvent.unsupported peer ∷ [];
}

-- The loop over the queue of requests, which is its argument.
unfoldable pub handle_in_events : Behaviour → List InEvent → Option SwarmEvent × Behaviour
handle_in_events b [] = (none, record b { in_events = [] })
handle_in_events b (InEvent.send_message peer message callback ∷ rest) =
    let reply : Callback × Reply = (callback, send_failed (SendError.peer_not_found peer)) in
    let next : Option SwarmEvent × Behaviour =
      handle_in_events (record b { replies = b.replies ++ reply ∷ [] }) rest in
    if contains peer b.connected_peers
    then (some (notify_handler peer (post_message message callback)), record b { in_events = rest })
    else next
handle_in_events b (InEvent.list_connected callback ∷ rest) =
    let reply : Callback × Reply = (callback, connected b.connected_peers) in
    handle_in_events (record b { replies = b.replies ++ reply ∷ [] }) rest

unfoldable pub poll_queue : Behaviour → List OutEvent → Option SwarmEvent × Behaviour
unfolding handle_in_events
poll_queue b (ev ∷ rest) = (some (generate_event ev), record b { out_events = rest })
poll_queue b [] = handle_in_events b b.in_events

-- `none` is `Pending`.
unfoldable pub poll : Behaviour → Option SwarmEvent × Behaviour
unfolding poll_queue
poll b = poll_queue b b.out_events
