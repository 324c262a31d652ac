-- ===== src/Swarm/Node.antt =====
-- The swarm's task as a whole: the bundle of channels that owlnest-proc/src/lib.rs generates for
-- owlnest/src/net/p2p/swarm/manager.rs, and what owlnest/src/net/p2p/swarm/event_handlers.rs does with a
-- request and with an event of libp2p. What is only logged is left out.
pub mod Channels
pub mod Routes
pub mod Examples
use owl_nest.Base.{ℕ, Option, none, some, List, [], ◌∷◌, ◌++◌}
use owl_nest.Blob.Types.{Run, done, panicked, ◌>>=◌, World}
use owl_nest.Blob.Types as BlobTypes
use owl_nest.Blob.State as BlobState
use owl_nest.Blob.Behaviour as Blob
use owl_nest.Advertise
use owl_nest.Messaging
use owl_nest.Kad.Routing as Kad
use owl_nest.Gossip.Handle as Gossip
use owl_nest.Swarm.{
  Errors, ConnectedPoint, Libp2pEvent, connection_established, connection_closed,
  incoming_connection, incoming_connection_error, outgoing_connection_error, new_listen_addr,
  expired_listen_addr, listener_closed, listener_error, dialing, new_external_addr_candidate,
  external_addr_confirmed, external_addr_expired, new_external_addr_of_peer,
}
use owl_nest.Swarm.Adapters
use owl_nest.Swarm.Operations

-- What the node is built from that is not of this repository. `point` takes an endpoint apart.
pub record Libp2p : Type 1 where
  pub kademlia : Kad.Kademlia
  pub mdns : Adapters.Mdns
  pub autonat : Adapters.AutoNat
  pub gossipsub : Gossip.Gossipsub
  pub errors : Errors
  pub point : ConnectedPoint → Kad.ConnectedPoint

-- `Rx`, a request to the swarm or to one of its behaviours.
pub data Rx : Type 0 where
  messaging : Messaging.InEvent → Rx
  advertise : Advertise.InEvent → Rx
  blob : BlobTypes.InEvent → Rx
  kad : Kad.InEvent → Rx
  auto_nat : Adapters.AutoNatRequest → Rx
  mdns : Adapters.MdnsRequest → Rx
  gossipsub : Gossip.InEvent → Rx
  swarm : Operations.InEvent → Rx

-- `RxBundle`, the channels in the order in which their receivers are polled.
pub record RxBundle : Type 0 where
  pub swarm : List Operations.InEvent
  pub messaging : List Messaging.InEvent
  pub advertise : List Advertise.InEvent
  pub blob : List BlobTypes.InEvent
  pub kad : List Kad.InEvent
  pub autonat : List Adapters.AutoNatRequest
  pub mdns : List Adapters.MdnsRequest
  pub gossipsub : List Gossip.InEvent

-- One receiver: its oldest message, or else what the later ones give.
abbrev pub poll_recv :
    {A : Type 0}
    → List A
    → (A → Rx)
    → (List A → RxBundle)
    → Option Rx × RxBundle
    → Option Rx × RxBundle
poll_recv [] wrap rest later = later
poll_recv (message ∷ messages) wrap rest later = (some (wrap message), rest messages)

-- `none` is `Pending`. The senders are kept by the manager, so no channel is closed.
unfoldable pub poll_next : RxBundle → Option Rx × RxBundle
poll_next rx =
    let gossipsub =
      poll_recv rx.gossipsub Rx.gossipsub (λ rest. record rx { gossipsub = rest }) (none, rx) in
    let mdns = poll_recv rx.mdns Rx.mdns (λ rest. record rx { mdns = rest }) gossipsub in
    let autonat = poll_recv rx.autonat Rx.auto_nat (λ rest. record rx { autonat = rest }) mdns in
    let kad = poll_recv rx.kad Rx.kad (λ rest. record rx { kad = rest }) autonat in
    let blob = poll_recv rx.blob Rx.blob (λ rest. record rx { blob = rest }) kad in
    let advertise =
      poll_recv rx.advertise Rx.advertise (λ rest. record rx { advertise = rest }) blob in
    let messaging =
      poll_recv rx.messaging Rx.messaging (λ rest. record rx { messaging = rest }) advertise in
    poll_recv rx.swarm Rx.swarm (λ rest. record rx { swarm = rest }) messaging

-- `Behaviour`, those of its fields that get requests; the others (identify, dcutr, upnp, ping and the two
-- of relay) only give events that are logged.
pub record Behaviour (lib : Libp2p) : Type 0 where
  pub messaging : Messaging.Behaviour
  pub advertise : Advertise.Behaviour
  pub blob : BlobState.Behaviour
  pub mdns : lib.mdns.Behaviour
  pub autonat : lib.autonat.Behaviour
  pub kad : lib.kademlia.Behaviour
  pub gossipsub : lib.gossipsub.Behaviour

module _ (lib : Libp2p) (net : Operations.Libp2pSwarm (Behaviour lib)) where
  -- The swarm, and a record of what was sent on callbacks, in order; the behaviours of this repository
  -- record theirs themselves.
  pub record Node : Type 0 where
    pub swarm : net.State
    pub swarm_answers : List (Operations.Callback × Operations.Answer net)
    pub kad_answers : List (Option (Kad.Callback × Kad.Answer lib.kademlia))
    pub autonat_answers : List (Option (Adapters.Callback × lib.autonat.NatStatus × ℕ))
    pub mdns_answers : List (Adapters.Callback × Adapters.MdnsAnswer)
    pub gossipsub_answers : List (Gossip.Answer lib.gossipsub)

  -- The behaviour after a change through `behaviour_mut`.
  abbrev pub with_behaviour : Node → Behaviour lib → Node
  with_behaviour node b = record node { swarm = net.set_behaviour b node.swarm }

  unfoldable pub handle_incoming_event : World → Node → Rx → Run Node
  handle_incoming_event w node (Rx.swarm ev) =
      let (answer, swarm') = Operations.swarm_op_exec net node.swarm ev in
      done (record node { swarm = swarm'; swarm_answers = node.swarm_answers ++ answer ∷ [] })
  handle_incoming_event w node (Rx.advertise ev) =
      let b = net.behaviour node.swarm in
      done (with_behaviour node (record b { advertise = Advertise.push_event b.advertise ev }))
  handle_incoming_event w node (Rx.blob ev) = do
    let b = net.behaviour node.swarm
    blob' ← Blob.push_event w b.blob ev
    done (with_behaviour node (record b { blob = blob' }))
  handle_incoming_event w node (Rx.messaging ev) =
      let b = net.behaviour node.swarm in
      done (with_behaviour node (record b { messaging = Messaging.push_event b.messaging ev }))
  handle_incoming_event w node (Rx.kad ev) =
      let b = net.behaviour node.swarm in
      let (answer, kad') = Kad.map_in_event lib.kademlia ev b.kad in
      done (record (with_behaviour node (record b { kad = kad' })) {
        kad_answers = node.kad_answers ++ answer ∷ [];
      })
  handle_incoming_event w node (Rx.mdns ev) =
      let answer = Adapters.mdns_map_in_event lib.mdns ev (net.behaviour node.swarm).mdns in
      done (record node { mdns_answers = node.mdns_answers ++ answer ∷ [] })
  handle_incoming_event w node (Rx.auto_nat ev) =
      let b = net.behaviour node.swarm in
      let (answer, autonat') = Adapters.autonat_map_in_event lib.autonat ev b.autonat in
      done (record (with_behaviour node (record b { autonat = autonat' })) {
        autonat_answers = node.autonat_answers ++ answer ∷ [];
      })
  handle_incoming_event w node (Rx.gossipsub ev) =
      let b = net.behaviour node.swarm in
      let (answer, gossipsub') = Gossip.map_in_event lib.gossipsub ev b.gossipsub in
      done (record (with_behaviour node (record b { gossipsub = gossipsub' })) {
        gossipsub_answers = node.gossipsub_answers ++ answer ∷ [];
      })

  -- The events of the behaviours, as far as the dispatch of one changes the swarm: those of mDNS do.
  pub data BehaviourEvent : Type 0 where
    mdns : Kad.MdnsEvent → BehaviourEvent
    other : BehaviourEvent

  -- A change of the routing table.
  abbrev pub with_kad : Node → (lib.kademlia.Behaviour → lib.kademlia.Behaviour) → Node
  with_kad node change =
      let b = net.behaviour node.swarm in with_behaviour node (record b { kad = change b.kad })

  unfoldable pub handle_behaviour_event : Node → BehaviourEvent → Node
  handle_behaviour_event node (mdns ev) = with_kad node (Kad.mdns_ev_dispatch lib.kademlia ev)
  handle_behaviour_event node other = node

  -- What the task does with an event that libp2p hands it. An event that libp2p has got since reaches
  -- `unimplemented!`.
  unfoldable pub handle_swarm_event : Node → Libp2pEvent lib.errors BehaviourEvent → Run Node
  unfolding handle_behaviour_event
  handle_swarm_event node (Libp2pEvent.behaviour event) = done (handle_behaviour_event node event)
  handle_swarm_event node (Libp2pEvent.connection_established peer_id id endpoint n errs time) =
      done (with_kad node (Kad.kad_add lib.kademlia peer_id (lib.point endpoint)))
  handle_swarm_event node (Libp2pEvent.connection_closed peer_id id endpoint n cause) =
      done (with_kad node (Kad.kad_remove lib.kademlia peer_id (lib.point endpoint)))
  handle_swarm_event node Libp2pEvent.other = panicked
  handle_swarm_event node _ = done node
