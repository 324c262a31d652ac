-- ===== src/Swarm.antt =====
-- The events of the swarm, owlnest/src/net/p2p/swarm/out_event.rs. Peers, connections, listeners,
-- addresses, endpoints and durations are numbers, since they are only passed on.
pub mod Convert
pub mod EventLoop
pub mod Operations
pub mod Adapters
pub mod Node
pub mod Examples
use owl_nest.Base.{ℕ, String, Option, none, some, List}
use owl_nest.Blob.Types.{Run, done, panicked}

abbrev pub PeerId : Type 0
PeerId = ℕ

abbrev pub ConnectionId : Type 0
ConnectionId = ℕ

abbrev pub ListenerId : Type 0
ListenerId = ℕ

abbrev pub Multiaddr : Type 0
Multiaddr = ℕ

abbrev pub ConnectedPoint : Type 0
ConnectedPoint = ℕ

-- The errors of libp2p, of all kinds, and their texts as `{:?}` writes them.
pub record Errors : Type 1 where
  pub Cause : Type 0
  pub debug : Cause → String

pub data SwarmEvent : Type 0 where
  connection_established : PeerId → ConnectionId → ConnectedPoint → ℕ → String → ℕ → SwarmEvent
  connection_closed : PeerId → ConnectionId → ConnectedPoint → ℕ → String → SwarmEvent
  incoming_connection : ConnectionId → Multiaddr → Multiaddr → SwarmEvent
  incoming_connection_error :
      ConnectionId → Multiaddr → Multiaddr → String → Option PeerId → SwarmEvent
  outgoing_connection_error : ConnectionId → Option PeerId → String → SwarmEvent
  new_listen_addr : ListenerId → Multiaddr → SwarmEvent
  expired_listen_addr : ListenerId → Multiaddr → SwarmEvent
  listener_closed : ListenerId → List Multiaddr → String → SwarmEvent
  listener_error : ListenerId → String → SwarmEvent
  dialing : Option PeerId → ConnectionId → SwarmEvent
  new_external_addr_candidate : Multiaddr → SwarmEvent
  external_addr_confirmed : Multiaddr → SwarmEvent
  external_addr_expired : Multiaddr → SwarmEvent
  new_external_addr_of_peer : PeerId → Multiaddr → SwarmEvent

module _ (errors : Errors) (Behaviour : Type 0) where
  -- `libp2p::swarm::SwarmEvent`, which may get more variants: `other`.
  pub data Libp2pEvent : Type 0 where
    behaviour : Behaviour → Libp2pEvent
    connection_established :
        PeerId → ConnectionId → ConnectedPoint → ℕ → errors.Cause → ℕ → Libp2pEvent
    connection_closed : PeerId → ConnectionId → ConnectedPoint → ℕ → errors.Cause → Libp2pEvent
    incoming_connection : ConnectionId → Multiaddr → Multiaddr → Libp2pEvent
    incoming_connection_error :
        ConnectionId → Multiaddr → Multiaddr → errors.Cause → Option PeerId → Libp2pEvent
    outgoing_connection_error : ConnectionId → Option PeerId → errors.Cause → Libp2pEvent
    new_listen_addr : ListenerId → Multiaddr → Libp2pEvent
    expired_listen_addr : ListenerId → Multiaddr → Libp2pEvent
    listener_closed : ListenerId → List Multiaddr → errors.Cause → Libp2pEvent
    listener_error : ListenerId → errors.Cause → Libp2pEvent
    dialing : Option PeerId → ConnectionId → Libp2pEvent
    new_external_addr_candidate : Multiaddr → Libp2pEvent
    external_addr_confirmed : Multiaddr → Libp2pEvent
    external_addr_expired : Multiaddr → Libp2pEvent
    new_external_addr_of_peer : PeerId → Multiaddr → Libp2pEvent
    other : Libp2pEvent

  -- `done none` is `Err(())`, and `panicked` the `unimplemented!` of the branch `uncovered`.
  unfoldable pub try_from_ref_swarm_event : Libp2pEvent → Run (Option SwarmEvent)
  try_from_ref_swarm_event (Libp2pEvent.behaviour ev) = done none
  try_from_ref_swarm_event (Libp2pEvent.connection_established peer id endpoint n errs time) =
      done (some (SwarmEvent.connection_established peer id endpoint n (errors.debug errs) time))
  try_from_ref_swarm_event (Libp2pEvent.connection_closed peer id endpoint n cause) =
      done (some (SwarmEvent.connection_closed peer id endpoint n (errors.debug cause)))
  try_from_ref_swarm_event (Libp2pEvent.incoming_connection id local_addr send_back_addr) =
      done (some (SwarmEvent.incoming_connection id local_addr send_back_addr))
  try_from_ref_swarm_event
        (Libp2pEvent.incoming_connection_error id local_addr send_back_addr error peer) =
      done (
        some (
          SwarmEvent.incoming_connection_error id local_addr send_back_addr (errors.debug error)
            peer))
  try_from_ref_swarm_event (Libp2pEvent.outgoing_connection_error id peer error) =
      done (some (SwarmEvent.outgoing_connection_error id peer (errors.debug error)))
  try_from_ref_swarm_event (Libp2pEvent.new_listen_addr id address) =
      done (some (SwarmEvent.new_listen_addr id address))
  try_from_ref_swarm_event (Libp2pEvent.expired_listen_addr id address) =
      done (some (SwarmEvent.expired_listen_addr id address))
  try_from_ref_swarm_event (Libp2pEvent.listener_closed id addresses reason) =
      done (some (SwarmEvent.listener_closed id addresses (errors.debug reason)))
  try_from_ref_swarm_event (Libp2pEvent.listener_error id error) =
      done (some (SwarmEvent.listener_error id (errors.debug error)))
  try_from_ref_swarm_event (Libp2pEvent.dialing peer id) = done (some (SwarmEvent.dialing peer id))
  try_from_ref_swarm_event (Libp2pEvent.new_external_addr_of_peer peer address) =
      done (some (SwarmEvent.new_external_addr_of_peer peer address))
  try_from_ref_swarm_event _ = panicked

  unfoldable pub try_from : Libp2pEvent → Run (Option SwarmEvent)
  try_from (Libp2pEvent.behaviour ev) = done none
  try_from (Libp2pEvent.connection_established peer id endpoint n errs time) =
      done (some (SwarmEvent.connection_established peer id endpoint n (errors.debug errs) time))
  try_from (Libp2pEvent.connection_closed peer id endpoint n cause) =
      done (some (SwarmEvent.connection_closed peer id endpoint n (errors.debug cause)))
  try_from (Libp2pEvent.incoming_connection id local_addr send_back_addr) =
      done (some (SwarmEvent.incoming_connection id local_addr send_back_addr))
  try_from (Libp2pEvent.incoming_connection_error id local_addr send_back_addr error peer) = done (
      some (
        SwarmEvent.incoming_connection_error id local_addr send_back_addr (errors.debug error)
          peer))
  try_from (Libp2pEvent.outgoing_connection_error id peer error) =
      done (some (SwarmEvent.outgoing_connection_error id peer (errors.debug error)))
  try_from (Libp2pEvent.new_listen_addr id address) =
      done (some (SwarmEvent.new_listen_addr id address))
  try_from (Libp2pEvent.expired_listen_addr id address) =
      done (some (SwarmEvent.expired_listen_addr id address))
  try_from (Libp2pEvent.listener_closed id addresses reason) =
      done (some (SwarmEvent.listener_closed id addresses (errors.debug reason)))
  try_from (Libp2pEvent.listener_error id error) =
      done (some (SwarmEvent.listener_error id (errors.debug error)))
  try_from (Libp2pEvent.dialing peer id) = done (some (SwarmEvent.dialing peer id))
  try_from _ = panicked
