-- ===== src/Kad/Routing.antt =====
-- Requests to the kad behaviour, `map_in_event`, `set_mode` and the hooks of the swarm in
-- owlnest/src/net/p2p/protocols/kad.rs, and what owlnest/src/net/p2p/protocols/mdns.rs does to its
-- routing table. The behaviours of libp2p are parameters.
use owl_nest.Base.{ℕ, Bool, Option, none, some, List, [], ◌∷◌, nat_key, Result, ok, err, ◌≡◌}
use owl_nest.Blob.Types.{Run, done, panicked, OperationError}
use owl_nest.Kad.{PeerId, QueryId}

abbrev pub Callback : Type 0
Callback = ℕ

abbrev pub Multiaddr : Type 0
Multiaddr = ℕ

-- `libp2p::kad::Mode`.
pub data Mode : Type 0 where
  client server : Mode

-- `libp2p::kad::Behaviour`, and what is documented of its routing table: `has` tells whether it holds
-- an address of a peer, `RoutingUpdate::Failed` that nothing was added.
pub record Kademlia : Type 1 where
  pub Behaviour : Type 0
  pub RoutingUpdate : Type 0
  pub NoKnownPeers : Type 0
  -- The record under the bytes of a peer id is looked for.
  pub get_record : PeerId → Behaviour → QueryId × Behaviour
  pub bootstrap : Behaviour → Result NoKnownPeers QueryId × Behaviour
  pub set_mode : Option Mode → Behaviour → Behaviour
  pub add_address : PeerId → Multiaddr → Behaviour → RoutingUpdate × Behaviour
  pub remove_address : PeerId → Multiaddr → Behaviour → Behaviour
  pub has : Behaviour → PeerId → Multiaddr → Bool
  pub remove_address_gone :
      (b : Behaviour) (peer : PeerId) (address : Multiaddr)
      → has (remove_address peer address b) peer address ≡ Bool.false

pub data InEvent : Type 0 where
  peer_lookup : PeerId → Callback → InEvent
  boot_strap : Callback → InEvent
  insert_node : PeerId → Multiaddr → Callback → InEvent
  set_mode : Option Mode → InEvent

-- `libp2p::core::ConnectedPoint`, as far as it is read: the address that was dialed, or the local one
-- and the one that the peer came from.
pub data ConnectedPoint : Type 0 where
  dialer : Multiaddr → ConnectedPoint
  listener : Multiaddr → Multiaddr → ConnectedPoint

-- `libp2p::mdns::Event`.
pub data MdnsEvent : Type 0 where
  discovered expired : List (PeerId × Multiaddr) → MdnsEvent

module _ (kad : Kademlia) where
  -- What is sent on a callback.
  pub data Answer : Type 0 where
    query : QueryId → Answer
    bootstrapped : Result kad.NoKnownPeers QueryId → Answer
    inserted : kad.RoutingUpdate → Answer

  unfoldable pub map_in_event : InEvent → kad.Behaviour → Option (Callback × Answer) × kad.Behaviour
  map_in_event (peer_lookup peer_id callback) behav =
      let (query_id, behav') = kad.get_record peer_id behav in
      (some (callback, query query_id), behav')
  map_in_event (boot_strap callback) behav =
      let (result, behav') = kad.bootstrap behav in (some (callback, bootstrapped result), behav')
  map_in_event (set_mode mode) behav = (none, kad.set_mode mode behav)
  map_in_event (insert_node peer_id address callback) behav =
      let (result, behav') = kad.add_address peer_id address behav in
      (some (callback, inserted result), behav')

  unfoldable pub kad_add : PeerId → ConnectedPoint → kad.Behaviour → kad.Behaviour
  kad_add peer_id (dialer address) behav = (kad.add_address peer_id address behav).1
  kad_add peer_id (listener local_addr send_back_addr) behav =
      (kad.add_address peer_id send_back_addr behav).1

  unfoldable pub kad_remove : PeerId → ConnectedPoint → kad.Behaviour → kad.Behaviour
  kad_remove peer_id (dialer address) behav = kad.remove_address peer_id address behav
  kad_remove peer_id (listener local_addr send_back_addr) behav =
      kad.remove_address peer_id send_back_addr behav

  add_all : List (PeerId × Multiaddr) → kad.Behaviour → kad.Behaviour
  add_all [] behav = behav
  add_all ((peer, addr) ∷ list) behav = add_all list (kad.add_address peer addr behav).1

  remove_all : List (PeerId × Multiaddr) → kad.Behaviour → kad.Behaviour
  remove_all [] behav = behav
  remove_all ((peer, addr) ∷ list) behav = remove_all list (kad.remove_address peer addr behav)

  unfoldable pub mdns_ev_dispatch : MdnsEvent → kad.Behaviour → kad.Behaviour
  unfolding add_all remove_all
  mdns_ev_dispatch (discovered list) behav = add_all list behav
  mdns_ev_dispatch (expired list) behav = remove_all list behav

-- What the listener of `set_mode` hears before its timeout: a new mode, another event, or an error of
-- the channel, after which there is an `unreachable!`.
pub data ModeEvent : Type 0 where
  mode_changed : Mode → ModeEvent
  other error : ModeEvent

unfoldable pub await_mode : List ModeEvent → Run (Result OperationError Mode)
await_mode [] = done (err OperationError.timeout)
await_mode (mode_changed new_mode ∷ rest) = done (ok new_mode)
await_mode (other ∷ rest) = await_mode rest
await_mode (error ∷ rest) = panicked
