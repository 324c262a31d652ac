-- ===== src/Advertise.antt =====
-- protocols/owlnest-advertise: the events (src/lib.rs, config.rs, handler.rs) and the behaviour,
-- src/behaviour.rs. A peer and a callback are numbers.
pub mod Handler
pub mod Requests
pub mod Capacity
pub mod Queries
pub mod Front
pub mod Examples
use owl_nest.Base.{
  ℕ, String, Bool, true, false, Option, none, some, List, [], ◌∷◌, ◌++◌, nat_key, length, contains,
  set_insert, set_remove, ltb, leb, if◌then◌else◌,
}

abbrev pub PeerId : Type 0
PeerId = ℕ

abbrev pub Callback : Type 0
Callback = ℕ

pub record Config : Type 0 where
  pub timeout_ms : ℕ
  pub max_advertise_capacity : ℕ

unfoldable pub default_config : Config
default_config = record { timeout_ms = 30000; max_advertise_capacity = 32 }

pub data Error : Type 0 where
  connection_closed : Error
  verifier_mismatch : Error
  not_providing : PeerId → Error
  timeout : Error
  unrecognized_message : String → Error
  io : String → Error
  channel : Error

pub data OutEvent : Type 0 where
  query_answered : PeerId → Option (List PeerId) → OutEvent
  remote_advertisement_result : PeerId → Bool → OutEvent
  provider_state : Bool → OutEvent
  advertised_peer_changed : PeerId → Bool → OutEvent
  error : Error → OutEvent

pub data InEvent : Type 0 where
  set_provider_state : Bool → Callback → InEvent
  get_provider_state : Callback → InEvent
  query_advertised_peer : PeerId → InEvent
  set_remote_advertisement : PeerId → Bool → Callback → InEvent
  remove_advertised : PeerId → InEvent
  clear_advertised : InEvent
  list_advertised : Callback → InEvent
  list_connected : Callback → InEvent

pub data FromBehaviour : Type 0 where
  query_advertised_peer : FromBehaviour
  answer_advertised_peer : Option (List PeerId) → FromBehaviour
  set_advertise_self : Bool → FromBehaviour

pub data ToBehaviour : Type 0 where
  incoming_query : ToBehaviour
  query_answered : Option (List PeerId) → ToBehaviour
  incoming_advertise_req : Bool → ToBehaviour
  error : Error → ToBehaviour
  inbound_negotiated : ToBehaviour
  outbound_negotiated : ToBehaviour

-- What the behaviour sends on a callback.
pub data Reply : Type 0 where
  state : Bool → Reply
  sent : Reply
  peers : List PeerId → Reply

-- `replies` is no field of the source: it records what was sent on callbacks, in order.
pub record Behaviour : Type 0 where
  pub config : Config
  pub pending_out_events : List OutEvent
  pub in_events : List InEvent
  pub advertised_peers : List PeerId
  pub pending_query_answer : List PeerId
  pub connected_peers : List PeerId
  pub is_providing : Bool
  pub replies : List (Callback × Reply)

unfoldable pub new : Config → Behaviour
new config = record {
  config = config;
  pending_out_events = [];
  in_events = [];
  advertised_peers = [];
  pending_query_answer = [];
  connected_peers = [];
  is_providing = false;
  replies = [];
}

unfoldable pub push_event : Behaviour → InEvent → Behaviour
push_event b ev = record b { in_events = b.in_events ++ ev ∷ [] }

-- `ToSwarm`.
pub data SwarmEvent : Type 0 where
  generate_event : OutEvent → SwarmEvent
  notify_handler : PeerId → FromBehaviour → SwarmEvent

abbrev pub emit : Behaviour → OutEvent → Behaviour
emit b ev = record b { pending_out_events = b.pending_out_events ++ ev ∷ [] }

abbrev pub answer : Behaviour → Callback → Reply → Behaviour
answer b callback reply = record b { replies = b.replies ++ (callback, reply) ∷ [] }

unfoldable pub on_connection_handler_event : Behaviour → PeerId → ToBehaviour → Behaviour
on_connection_handler_event b peer ToBehaviour.incoming_query = record b {
  pending_query_answer = b.pending_query_answer ++ peer ∷ [];
}
on_connection_handler_event b peer (ToBehaviour.incoming_advertise_req true) =
    if leb (length b.advertised_peers) b.config.max_advertise_capacity
    then record b { advertised_peers = set_insert peer b.advertised_peers }
    else b
on_connection_handler_event b peer (ToBehaviour.incoming_advertise_req false) = record b {
  advertised_peers = set_remove peer b.advertised_peers;
}
on_connection_handler_event b peer (ToBehaviour.query_answered result) =
    emit b (OutEvent.query_answered peer result)
on_connection_handler_event b peer (ToBehaviour.error e) = emit b (OutEvent.error e)
on_connection_handler_event b peer ToBehaviour.inbound_negotiated = b
on_connection_handler_event b peer ToBehaviour.outbound_negotiated = record b {
  connected_peers = set_insert peer b.connected_peers;
}

-- A connection closes while so many others to its peer remain.
unfoldable pub on_swarm_event : Behaviour → PeerId → ℕ → Behaviour
on_swarm_event b peer remaining_established =
    if ltb remaining_established 1
    then record b {
      advertised_peers = set_remove peer b.advertised_peers;
      connected_peers = set_remove peer b.connected_peers;
    }
    else b

-- The loop over the queue of requests, which is its argument.
unfoldable pub handle_in_event : Behaviour → List InEvent → Option SwarmEvent × Behaviour
handle_in_event b [] = (none, record b { in_events = [] })
handle_in_event b (InEvent.query_advertised_peer peer ∷ rest) =
    let next : Option SwarmEvent × Behaviour =
      handle_in_event (emit b (OutEvent.error (not_providing peer))) rest in
    if contains peer b.connected_peers
    then (
      some (notify_handler peer FromBehaviour.query_advertised_peer),
      record b { in_events = rest },
    )
    else next
handle_in_event b (get_provider_state callback ∷ rest) = (
  some (generate_event (provider_state b.is_providing)),
  record (answer b callback (state b.is_providing)) { in_events = rest },
)
handle_in_event b (set_remote_advertisement remote target callback ∷ rest) = (
  some (notify_handler remote (set_advertise_self target)),
  record (answer b callback sent) { in_events = rest },
)
handle_in_event b (set_provider_state target_state callback ∷ rest) = (
  some (generate_event (provider_state target_state)),
  record (answer b callback (state target_state)) { is_providing = target_state; in_events = rest },
)
handle_in_event b (remove_advertised peer ∷ rest) =
    let result = contains peer b.advertised_peers in
    (
      some (generate_event (advertised_peer_changed peer result)),
      record b { advertised_peers = set_remove peer b.advertised_peers; in_events = rest },
    )
handle_in_event b (list_advertised callback ∷ rest) =
    handle_in_event (answer b callback (peers b.advertised_peers)) rest
handle_in_event b (clear_advertised ∷ rest) =
    handle_in_event (record b { advertised_peers = [] }) rest
handle_in_event b (list_connected callback ∷ rest) =
    handle_in_event (answer b callback (peers b.connected_peers)) rest

unfoldable pub pop_event :
    Option SwarmEvent × Behaviour → List OutEvent → Option SwarmEvent × Behaviour
pop_event (some ev, b) evs = (some ev, b)
pop_event (none, b) [] = (none, b)
pop_event (none, b) (ev ∷ rest) = (some (generate_event ev), record b { pending_out_events = rest })

unfoldable pub poll_queries : Behaviour → List PeerId → Option SwarmEvent × Behaviour
unfolding handle_in_event pop_event
poll_queries b (peer ∷ rest) =
    let list = if b.is_providing then some b.advertised_peers else none in
    (
      some (notify_handler peer (answer_advertised_peer list)),
      record b { pending_query_answer = rest },
    )
poll_queries b [] = let r = handle_in_event b b.in_events in pop_event r r.1.pending_out_events

-- `none` is `Pending`.
unfoldable pub poll : Behaviour → Option SwarmEvent × Behaviour
unfolding poll_queries
poll b = poll_queries b b.pending_query_answer

-- What happens to a behaviour.
pub data Input : Type 0 where
  pushed : InEvent → Input
  reported : PeerId → ToBehaviour → Input
  closed : PeerId → ℕ → Input
  polled : Input

abbrev pub step : Behaviour → Input → Option SwarmEvent × Behaviour
step b (pushed ev) = (none, push_event b ev)
step b (reported peer ev) = (none, on_connection_handler_event b peer ev)
step b (closed peer remaining) = (none, on_swarm_event b peer remaining)
step b polled = poll b

-- What the polls gave, in order, and the last state.
unfoldable pub run : Behaviour → List Input → List (Option SwarmEvent) × Behaviour
run b [] = ([], b)
run b (i ∷ is) =
    let (event, b') = step b i in let (events, b'') = run b' is in (event ∷ events, b'')
