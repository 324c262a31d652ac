-- ===== src/Swarm/Node/Examples.antt =====
-- The swarm's task on a small instance of libp2p.
use owl_nest.Base.{
  ℕ, ◌≡◌, refl, Bool, true, false, ◌&&◌, List, [], ◌∷◌, arith, ◌==◌, nat_key, if◌then◌else◌, err,
}
use owl_nest.Blob.Types.{done, Returns, World}
use owl_nest.Blob.Types as BlobTypes
use owl_nest.Blob.State as BlobState
use owl_nest.Blob.Examples.{world}
use owl_nest.Advertise
use owl_nest.Messaging
use owl_nest.Gossip.Examples.{gossipsub}
use owl_nest.Kad.Routing as Kad
use owl_nest.Swarm.{Libp2pEvent}
use owl_nest.Swarm.Examples.{errors}
use owl_nest.Swarm.Operations
use owl_nest.Swarm.Operations.Examples.{small_net}
use owl_nest.Swarm.Node.{
  Libp2p, Rx, Behaviour, Node, poll_next, handle_incoming_event, handle_swarm_event,
}
use owl_nest.Swarm.Node.Channels
use owl_nest.Swarm.Node.Channels.{no_messages, then_also, sorted, run-sorted, poll_next-none}

-- A routing table is a list of peers with addresses.
abbrev forget : List (ℕ × ℕ) → ℕ → ℕ → List (ℕ × ℕ)
forget [] peer address = []
forget ((p, a) ∷ routes) peer address =
    let rest = forget routes peer address in
    if p == peer && a == address then rest else (p, a) ∷ rest

abbrev knows : List (ℕ × ℕ) → ℕ → ℕ → Bool
knows [] peer address = false
knows ((p, a) ∷ routes) peer address =
    let rest = knows routes peer address in if p == peer && a == address then true else rest

knows-forget :
    (routes : List (ℕ × ℕ)) (peer address : ℕ)
    → knows (forget routes peer address) peer address ≡ false
knows-forget [] peer address = refl
knows-forget ((p, a) ∷ routes) peer address = ground (arith, knows-forget routes peer address)

abbrev kademlia : Kad.Kademlia
kademlia = record {
  Behaviour = List (ℕ × ℕ);
  RoutingUpdate = Unit {0};
  NoKnownPeers = Unit {0};
  get_record = λ peer b. (0, b);
  bootstrap = λ b. (err tt, b);
  set_mode = λ mode b. b;
  add_address = λ peer address b. (tt, (peer, address) ∷ b);
  remove_address = λ peer address b. forget b peer address;
  has = knows;
  remove_address_gone = knows-forget;
}

abbrev lib : Libp2p
lib = record {
  kademlia = kademlia;
  mdns = record { Behaviour = List ℕ; discovered_nodes = λ b. b };
  autonat = record {
    Behaviour = Unit {0};
    NatStatus = Unit {0};
    add_server = λ peer address b. b;
    remove_server = λ peer b. b;
    nat_status = λ b. tt;
    confidence = λ b. 0;
    probe_address = λ address b. b;
  };
  gossipsub = gossipsub;
  errors = errors;
  point = λ endpoint. Kad.listener 0 endpoint;
}

abbrev net : Operations.Libp2pSwarm (Behaviour lib)
net = small_net (Behaviour lib)

-- Two connections to peer 7 from the same address are open.
abbrev behaviour : Behaviour lib
behaviour = record {
  messaging = Messaging.new (record { timeout_ms = 30000; store = Messaging.volatile });
  advertise = Advertise.new Advertise.default_config;
  blob = BlobState.new BlobTypes.default_config;
  kad = (7, 70) ∷ (7, 70) ∷ [];
  autonat = tt;
  mdns = [];
  gossipsub = [];
}

abbrev node : Node lib net
node = record {
  swarm = (behaviour, (7 ∷ [], []));
  swarm_answers = [];
  kad_answers = [];
  autonat_answers = [];
  mdns_answers = [];
  gossipsub_answers = [];
}

-- One of them closes.
closed_test :
    handle_swarm_event lib net node (Libp2pEvent.connection_closed 7 0 70 1 "")
    ≡ done (record node { swarm = (record behaviour { kad = [] }, (7 ∷ [], [])) })
unfolding handle_swarm_event Kad.kad_remove
closed_test = refl

query_test :
    handle_incoming_event lib net world node
      (Rx.advertise (Advertise.InEvent.query_advertised_peer 7))
    ≡ done (record node {
      swarm = (
        record behaviour {
          advertise =
              Advertise.push_event behaviour.advertise (Advertise.InEvent.query_advertised_peer 7);
        },
        (7 ∷ [], []),
      );
    })
unfolding handle_incoming_event
query_test = refl

-- A request for the file transfer, one for the swarm that overtakes it, and another.
abbrev sends : List Channels.Turn
sends =
    Channels.sent (Rx.blob (BlobTypes.InEvent.list_connected 1))
    ∷ Channels.sent (Rx.swarm (Operations.list_connected 2))
    ∷ Channels.taken
    ∷ Channels.sent (Rx.blob (BlobTypes.InEvent.list_send 3))
    ∷ Channels.taken
    ∷ []

order_test :
    (Channels.run no_messages sends).0
    ≡ Rx.swarm (Operations.list_connected 2) ∷ Rx.blob (BlobTypes.InEvent.list_connected 1) ∷ []
unfolding Channels.run poll_next
order_test = refl

run-sorted_example :
    then_also (sorted (Channels.run no_messages sends).0) (Channels.run no_messages sends).1
    ≡ record no_messages {
      swarm = Operations.list_connected 2 ∷ [];
      blob = BlobTypes.InEvent.list_connected 1 ∷ BlobTypes.InEvent.list_send 3 ∷ [];
    }
run-sorted_example = run-sorted sends no_messages
