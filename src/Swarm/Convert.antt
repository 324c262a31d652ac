-- ===== src/Swarm/Convert.antt =====
-- The two conversions of owlnest/src/net/p2p/swarm/out_event.rs beside each other, and what converted
-- events say.
use owl_nest.Base.{◌≡◌, refl, Bool, true, false, ◌||◌, Option, if◌then◌else◌}
use owl_nest.Blob.Types.{Run, panicked}
use owl_nest.Swarm.{Errors, SwarmEvent, Libp2pEvent, try_from, try_from_ref_swarm_event}

module _ (errors : Errors) (Behaviour : Type 0) where
  -- The news about addresses outside of this node.
  abbrev pub is_external : Libp2pEvent errors Behaviour → Bool
  is_external (Libp2pEvent.new_external_addr_candidate a) = true
  is_external (Libp2pEvent.external_addr_confirmed a) = true
  is_external (Libp2pEvent.external_addr_expired a) = true
  is_external _ = false

  abbrev pub is_of_peer : Libp2pEvent errors Behaviour → Bool
  is_of_peer (Libp2pEvent.new_external_addr_of_peer peer a) = true
  is_of_peer _ = false

  abbrev pub is_other : Libp2pEvent errors Behaviour → Bool
  is_other Libp2pEvent.other = true
  is_other _ = false

  abbrev pub has_panicked : Run (Option SwarmEvent) → Bool
  has_panicked panicked = true
  has_panicked _ = false

  -- On every event but the address of a peer the two conversions give the same; on that one the
  -- conversion by value panics. The conversion by reference panics exactly on the three kinds of events
  -- about this node's external addresses, which SwarmEvent has variants for, and on those unknown to
  -- both.
  pub conversions_agree :
      (ev : Libp2pEvent errors Behaviour)
      → (try_from errors Behaviour ev
          ≡ (if is_of_peer ev then panicked else try_from_ref_swarm_event errors Behaviour ev))
        × (has_panicked (try_from_ref_swarm_event errors Behaviour ev)
            ≡ (is_external ev || is_other ev))
  unfolding try_from try_from_ref_swarm_event
  conversions_agree Libp2pEvent.other = (refl, refl)
  conversions_agree _ = (refl, refl)
