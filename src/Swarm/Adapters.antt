-- ===== src/Swarm/Adapters.antt =====
-- The adapters for the mDNS and AutoNAT behaviours of libp2p, owlnest/src/net/p2p/protocols/mdns.rs and
-- autonat.rs: their requests and `map_in_event`. The behaviours are parameters.
use owl_nest.Base.{
  ℕ, Bool, true, false, Option, none, some, List, [], ◌∷◌, ◌==◌, nat_key, if◌then◌else◌,
}
use owl_nest.Swarm.{PeerId, Multiaddr}

abbrev pub Callback : Type 0
Callback = ℕ

-- `libp2p::mdns::tokio::Behaviour`.
pub record Mdns : Type 1 where
  pub Behaviour : Type 0
  pub discovered_nodes : Behaviour → List PeerId

pub data MdnsRequest : Type 0 where
  list_discovered_nodes : Callback → MdnsRequest
  has_node : PeerId → Callback → MdnsRequest

pub data MdnsAnswer : Type 0 where
  nodes : List PeerId → MdnsAnswer
  found : Bool → MdnsAnswer

-- `discovered_nodes().any(|discovered| *discovered == peer)`.
unfoldable pub any_is : PeerId → List PeerId → Bool
any_is peer [] = false
any_is peer (discovered ∷ rest) =
    let later = any_is peer rest in if discovered == peer then true else later

module _ (mdns : Mdns) where
  unfoldable pub mdns_map_in_event : MdnsRequest → mdns.Behaviour → Callback × MdnsAnswer
  unfolding any_is
  mdns_map_in_event (list_discovered_nodes callback) behav =
      (callback, nodes (mdns.discovered_nodes behav))
  mdns_map_in_event (has_node peer callback) behav =
      (callback, found (any_is peer (mdns.discovered_nodes behav)))

-- `libp2p::autonat::Behaviour`.
pub record AutoNat : Type 1 where
  pub Behaviour : Type 0
  pub NatStatus : Type 0
  pub add_server : PeerId → Option Multiaddr → Behaviour → Behaviour
  pub remove_server : PeerId → Behaviour → Behaviour
  pub nat_status : Behaviour → NatStatus
  pub confidence : Behaviour → ℕ
  pub probe_address : Multiaddr → Behaviour → Behaviour

pub data AutoNatRequest : Type 0 where
  add_server : PeerId → Option Multiaddr → AutoNatRequest
  remove_server : PeerId → AutoNatRequest
  probe : Multiaddr → AutoNatRequest
  get_nat_status : Callback → AutoNatRequest

module _ (nat : AutoNat) where
  unfoldable pub autonat_map_in_event :
      AutoNatRequest → nat.Behaviour → Option (Callback × nat.NatStatus × ℕ) × nat.Behaviour
  autonat_map_in_event (AutoNatRequest.add_server peer_id address) behaviour =
      (none, nat.add_server peer_id address behaviour)
  autonat_map_in_event (AutoNatRequest.remove_server peer_id) behaviour =
      (none, nat.remove_server peer_id behaviour)
  autonat_map_in_event (get_nat_status callback) behaviour =
      (some (callback, nat.nat_status behaviour, nat.confidence behaviour), behaviour)
  autonat_map_in_event (probe candidate) behaviour = (none, nat.probe_address candidate behaviour)
