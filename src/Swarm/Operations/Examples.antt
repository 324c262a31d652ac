-- ===== src/Swarm/Operations/Examples.antt =====
-- A small swarm.
use owl_nest.Base.{
  ◌≡◌, refl, true, false, List, [], ◌∷◌, contains, set_insert, set_remove, nat_key, ok, err,
  if◌then◌else◌,
}
use owl_nest.Swarm.{PeerId, Multiaddr}
use owl_nest.Swarm.Operations
use owl_nest.Swarm.Operations.{
  Libp2pSwarm, InEvent, is_connected_to_peer_id, connected, swarm_op_exec,
}

-- Its state is the behaviour, the list of peers, whose addresses are their numbers, and that of external
-- addresses.
abbrev pub small_net : (B : Type 0) → Libp2pSwarm B
small_net B = record {
  State = B × (List PeerId × List Multiaddr);
  behaviour = λ s. s.0;
  set_behaviour = λ b s. (b, s.1);
  behaviour-set_behaviour = λ b s. refl;
  DialError = Unit {0};
  TransportError = Unit {0};
  dial = λ s a. if contains a s.1.0 then (err tt, s) else (ok tt, (s.0, (a ∷ s.1.0, s.1.1)));
  listen_on = λ s a. (ok a, s);
  listeners = λ s. [];
  remove_listener = λ s id. (false, s);
  add_external_address = λ s a. (s.0, (s.1.0, set_insert a s.1.1));
  remove_external_address = λ s a. (s.0, (s.1.0, set_remove a s.1.1));
  external_addresses = λ s. s.1.1;
  connected_peers = λ s. s.1.0;
  is_connected = λ s p. contains p s.1.0;
  disconnect_peer_id =
      λ s p. if contains p s.1.0 then (ok tt, (s.0, (set_remove p s.1.0, s.1.1))) else (err tt, s);
}

-- A peer that was dialed is connected, and cannot be dialed again.
dial_test :
    let net = small_net (Unit {0}) in
    let dialed = (swarm_op_exec net (tt, ([], [])) (InEvent.dial 7 0)).1 in
    ((swarm_op_exec net dialed (is_connected_to_peer_id 7 1)).0 ≡ (1, connected true))
    × ((swarm_op_exec net dialed (InEvent.dial 7 2)).0 ≡ (2, Operations.dialed (err tt)))
unfolding swarm_op_exec contains
dial_test = (refl, refl)
