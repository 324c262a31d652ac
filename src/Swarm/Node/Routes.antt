-- ===== src/Swarm/Node/Routes.antt =====
-- The routing table of kad under the events of connections, `kad_remove` of
-- owlnest/src/net/p2p/protocols/kad.rs.
use owl_nest.Base.{ℕ, ◌≡◌, ◌∙◌, ap, false}
use owl_nest.Blob.Types.{Returns}
use owl_nest.Kad.Routing as Kad
use owl_nest.Swarm.{PeerId, ConnectionId, ConnectedPoint, Libp2pEvent}
use owl_nest.Swarm.Operations.{Libp2pSwarm}
use owl_nest.Swarm.Node.{Libp2p, Behaviour, Node, handle_swarm_event}

-- The address under which a connection is entered in the routing table.
abbrev pub remote_address : Kad.ConnectedPoint → Kad.Multiaddr
remote_address (Kad.dialer address) = address
remote_address (Kad.listener local_addr send_back_addr) = send_back_addr

module _ (lib : Libp2p) where
  kad_remove-gone :
      (peer : PeerId) (point : Kad.ConnectedPoint) (b : lib.kademlia.Behaviour)
      → lib.kademlia.has (Kad.kad_remove lib.kademlia peer point b) peer (remote_address point)
        ≡ false
  unfolding Kad.kad_remove
  kad_remove-gone peer (Kad.dialer address) b = lib.kademlia.remove_address_gone b peer address
  kad_remove-gone peer (Kad.listener local_addr send_back_addr) b =
      lib.kademlia.remove_address_gone b peer send_back_addr

module _ (lib : Libp2p) (net : Libp2pSwarm (Behaviour lib)) where
  -- When the task has dealt with the closing of one connection, its address is not in the routing
  -- table, however many other connections to the peer remain, at the same address or not.
  pub connection_closed-forgets :
      (node : Node lib net) (peer : PeerId) (id : ConnectionId) (point : ConnectedPoint)
      (remaining : ℕ) (cause : lib.errors.Cause)
      → Returns
          (λ node'.
            lib.kademlia.has (net.behaviour node'.swarm).kad peer (remote_address (lib.point point))
            ≡ false)
          (handle_swarm_event lib net node
            (Libp2pEvent.connection_closed peer id point remaining cause))
  unfolding handle_swarm_event
  connection_closed-forgets node peer id point remaining cause =
      let b = net.behaviour node.swarm in
      ap (λ b'. lib.kademlia.has b'.kad peer (remote_address (lib.point point)))
        (net.behaviour-set_behaviour
          (record b { kad = Kad.kad_remove lib.kademlia peer (lib.point point) b.kad }) node.swarm)
      ∙ kad_remove-gone lib peer (lib.point point) b.kad
