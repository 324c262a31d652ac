-- ===== src/Swarm/Operations.antt =====
-- Requests to the swarm itself, owlnest/src/net/p2p/swarm/mod.rs and event_handlers.rs. The swarm of
-- libp2p is a parameter.
pub mod Examples
use owl_nest.Base.{
  ◌≡◌, ℕ, Bool, Option, none, some, List, [], ◌∷◌, ◌==◌, nat_key, if◌then◌else◌, Result,
}
use owl_nest.Swarm.{PeerId, ListenerId, Multiaddr}

abbrev pub Callback : Type 0
Callback = ℕ

-- `libp2p::Swarm` with the methods that are called. The behaviour of the node is a part of it:
-- `behaviour` and `set_behaviour` are what `behaviour_mut` gives, and the other methods may call it.
pub record Libp2pSwarm (Behaviour : Type 0) : Type 1 where
  pub State : Type 0
  pub behaviour : State → Behaviour
  pub set_behaviour : Behaviour → State → State
  pub behaviour-set_behaviour : (b : Behaviour) (s : State) → behaviour (set_behaviour b s) ≡ b
  pub DialError : Type 0
  pub TransportError : Type 0
  pub dial : State → Multiaddr → Result DialError (Unit {0}) × State
  pub listen_on : State → Multiaddr → Result TransportError ListenerId × State
  pub listeners : State → List Multiaddr
  pub remove_listener : State → ListenerId → Bool × State
  pub add_external_address : State → Multiaddr → State
  pub remove_external_address : State → Multiaddr → State
  pub external_addresses : State → List Multiaddr
  pub connected_peers : State → List PeerId
  pub is_connected : State → PeerId → Bool
  pub disconnect_peer_id : State → PeerId → Result (Unit {0}) (Unit {0}) × State

pub data InEvent : Type 0 where
  dial : Multiaddr → Callback → InEvent
  listen : Multiaddr → Callback → InEvent
  list_listeners : Callback → InEvent
  remove_listeners : ListenerId → Callback → InEvent
  add_external_address : Multiaddr → Callback → InEvent
  remove_external_address : Multiaddr → Callback → InEvent
  list_external_addresses : Callback → InEvent
  list_connected : Callback → InEvent
  is_connected_to_peer_id : PeerId → Callback → InEvent
  disconnect_from_peer_id : PeerId → Callback → InEvent

module _ {Behaviour : Type 0} (net : Libp2pSwarm Behaviour) where
  -- What is sent on a callback.
  pub data Answer : Type 0 where
    dialed : Result net.DialError (Unit {0}) → Answer
    listening : Result net.TransportError ListenerId → Answer
    addresses : List Multiaddr → Answer
    removed : Bool → Answer
    finished : Answer
    peers : List PeerId → Answer
    connected : Bool → Answer
    disconnected : Result (Unit {0}) (Unit {0}) → Answer

  -- The answer goes to the callback; nothing happens if nobody waits for it any more.
  unfoldable pub swarm_op_exec : net.State → InEvent → (Callback × Answer) × net.State
  swarm_op_exec swarm (InEvent.dial address callback) =
      let (result, swarm') = net.dial swarm address in ((callback, dialed result), swarm')
  swarm_op_exec swarm (listen address callback) =
      let (result, swarm') = net.listen_on swarm address in ((callback, listening result), swarm')
  swarm_op_exec swarm (list_listeners callback) =
      ((callback, addresses (net.listeners swarm)), swarm)
  swarm_op_exec swarm (remove_listeners listener_id callback) =
      let (result, swarm') = net.remove_listener swarm listener_id in
      ((callback, removed result), swarm')
  swarm_op_exec swarm (InEvent.add_external_address address callback) =
      ((callback, finished), net.add_external_address swarm address)
  swarm_op_exec swarm (InEvent.remove_external_address address callback) =
      ((callback, finished), net.remove_external_address swarm address)
  swarm_op_exec swarm (disconnect_from_peer_id peer_id callback) =
      let (result, swarm') = net.disconnect_peer_id swarm peer_id in
      ((callback, disconnected result), swarm')
  swarm_op_exec swarm (list_external_addresses callback) =
      ((callback, addresses (net.external_addresses swarm)), swarm)
  swarm_op_exec swarm (list_connected callback) =
      ((callback, peers (net.connected_peers swarm)), swarm)
  swarm_op_exec swarm (is_connected_to_peer_id peer_id callback) =
      ((callback, connected (net.is_connected swarm peer_id)), swarm)
