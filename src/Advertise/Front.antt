-- ===== src/Advertise/Front.antt =====
-- The handle of owlnest/src/net/p2p/protocols/advertise.rs: a query to a provider and the removal of an
-- advertisement, whose answers come among the events that the swarm sends to all its listeners. The
-- methods that wait for a callback only pass a request on.
pub mod News
pub mod Owing
pub mod Answers
pub mod Unconnected
pub mod Removal
pub mod Examples
use owl_nest.Base.{Result, ok, err}
use owl_nest.Base.{ℕ, Bool, Option, none, some, List, [], ◌∷◌, ◌++◌, ◌==◌, nat_key, if◌then◌else◌}
use owl_nest.Blob.Types.{Run, done, panicked, OperationError}
use owl_nest.Advertise.{
  PeerId, Error, OutEvent, InEvent, Behaviour, SwarmEvent, generate_event, Input, pushed, step,
}

-- What `recv` of the channel with the swarm's events gives: an event of this behaviour or another, or
-- an error, because the receiver was too slow or the channel is closed.
pub data Received : Type 0 where
  advertise : OutEvent → Received
  other : Received
  error : Received

-- The listeners of both calls, over the events that come before the timeout. After an error there is
-- an `unreachable!`.
unfoldable pub listen_query : PeerId → List Received → Run (Result Error (Option (List PeerId)))
listen_query relay [] = done (err Error.timeout)
listen_query relay (advertise (OutEvent.query_answered from list) ∷ rest) =
    let later = listen_query relay rest in if from == relay then done (ok list) else later
listen_query relay (advertise (OutEvent.error (Error.not_providing peer)) ∷ rest) =
    let later = listen_query relay rest in
    if peer == relay then done (err (Error.not_providing peer)) else later
listen_query relay (error ∷ rest) = panicked
listen_query relay (_ ∷ rest) = listen_query relay rest

unfoldable pub listen_removal : PeerId → List Received → Run (Result OperationError Bool)
listen_removal peer_id [] = done (err OperationError.timeout)
listen_removal peer_id (advertise (OutEvent.advertised_peer_changed target state) ∷ rest) =
    let later = listen_removal peer_id rest in if target == peer_id then done (ok state) else later
listen_removal peer_id (error ∷ rest) = panicked
listen_removal peer_id (_ ∷ rest) = listen_removal peer_id rest

-- What happens at the node: an input of this behaviour, of which a poll may give an event, an event of
-- another behaviour, or more events than the channel holds, so that the listener misses some.
pub data Occurrence : Type 0 where
  happens : Input → Occurrence
  elsewhere : Occurrence
  missed : Occurrence

-- What a listener gets. A message to a handler is no event of the swarm.
abbrev pub heard : Option SwarmEvent → List Received → List Received
heard (some (generate_event ev)) later = advertise ev ∷ later
heard _ later = later

abbrev pub published : Behaviour → List Occurrence → List Received
published b [] = []
published b (happens i ∷ os) = heard (step b i).0 (published (step b i).1 os)
published b (elsewhere ∷ os) = other ∷ published b os
published b (missed ∷ os) = error ∷ published b os

-- The state after some occurrences.
abbrev pub state_after : Behaviour → List Occurrence → Behaviour
state_after b [] = b
state_after b (happens i ∷ os) = state_after (step b i).1 os
state_after b (_ ∷ os) = state_after b os

-- Both calls subscribe, send their request, and listen until the timeout; `before` is what happens
-- until the request gets to the behaviour, `after` what happens from then on.
unfoldable pub query_advertised_peer :
    List Occurrence
    → List Occurrence
    → Behaviour
    → PeerId
    → Run (Result Error (Option (List PeerId)))
unfolding listen_query
query_advertised_peer before after b relay =
    let request = happens (pushed (InEvent.query_advertised_peer relay)) in
    listen_query relay (published b (before ++ request ∷ after))

unfoldable pub remove_advertised :
    List Occurrence → List Occurrence → Behaviour → PeerId → Run (Result OperationError Bool)
unfolding listen_removal
remove_advertised before after b peer_id =
    let request = happens (pushed (InEvent.remove_advertised peer_id)) in
    listen_removal peer_id (published b (before ++ request ∷ after))
