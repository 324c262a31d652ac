-- ===== src/Advertise/Front/Removal.antt =====
-- `remove_advertised` of owlnest/src/net/p2p/protocols/advertise.rs when nothing else happens until its
-- answer.
use owl_nest.Base.{Result, ok}
use owl_nest.Base.{
  ℕ, zero, suc, ◌+◌, ◌≤◌, ◌≡◌, Bool, List, [], ◌∷◌, length, contains, nat_key, nat_beq_iff, arith,
  if◌then◌else◌,
}
use owl_nest.Blob.Types.{Run, done, OperationError}
use owl_nest.Advertise.{
  PeerId, InEvent, Behaviour, push_event, poll, poll_queries, handle_in_event, pop_event, polled,
}
use owl_nest.Advertise.Front.{Occurrence, happens, published, listen_removal, remove_advertised}

abbrev pub polls : ℕ → List Occurrence
polls zero = []
polls (suc n) = happens polled ∷ polls n

-- The state in which a request to remove an advertisement is the only one.
abbrev removing : Behaviour → List PeerId → PeerId → Behaviour
removing b queries peer_id = record b {
  pending_query_answer = queries;
  in_events = InEvent.remove_advertised peer_id ∷ [];
}

-- Its listener hears of that peer in the event of the next poll.
listen_removal-first :
    (peer_id : PeerId) (found : Bool) (later : Run (Result OperationError Bool))
    → (if nat_key.same peer_id peer_id then done (ok found) else later) ≡ done (ok found)
listen_removal-first peer_id found later = ground (arith, nat_beq_iff peer_id peer_id)

-- The queries that wait are answered first, and the request comes before the events that wait.
listen_removal-polls :
    (queries : List PeerId) (n : ℕ) (b : Behaviour) (peer_id : PeerId)
    → length queries + 1 ≤ n
    → listen_removal peer_id (published (removing b queries peer_id) (polls n))
      ≡ done (ok (contains peer_id b.advertised_peers))
unfolding listen_removal poll poll_queries handle_in_event pop_event
listen_removal-polls queries zero b peer_id enough = absurd (omega arith)
listen_removal-polls [] (suc n) b peer_id enough = listen_removal-first peer_id _ _
listen_removal-polls (p ∷ queries) (suc n) b peer_id enough =
    listen_removal-polls queries n b peer_id (omega arith)

-- The removal of an advertisement, with no other request waiting and nothing else going on, is answered
-- if the behaviour is polled, before the timeout, once for each query that waits and once more; the
-- answer is whether the peer was advertised.
pub remove_advertised-answer :
    (n : ℕ) (b : Behaviour) (peer_id : PeerId)
    → b.in_events ≡ []
    → length b.pending_query_answer + 1 ≤ n
    → remove_advertised [] (polls n) b peer_id ≡ done (ok (contains peer_id b.advertised_peers))
unfolding remove_advertised push_event
remove_advertised-answer n b peer_id idle enough =
    rw idle (listen_removal-polls b.pending_query_answer n b peer_id enough)
