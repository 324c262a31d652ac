-- ===== src/Kad.antt =====
-- The handle of owlnest/src/net/p2p/protocols/kad.rs: a query, which is one of many under way at once
-- and whose results come among the events of all, and the map of peers that a task keeps. The results
-- and addresses are values of libp2p, a peer and a query are numbers.
pub mod Queries
pub mod Routing
pub mod Examples
use owl_nest.Base.{ℕ, Bool, Option, none, some, List, [], ◌∷◌, ◌++◌, nat_key, ◌==◌, if◌then◌else◌}
use owl_nest.Base.Table.{Table, empty, get, insert}
use owl_nest.Blob.Types.{Run, done, panicked, stuck}

abbrev pub PeerId : Type 0
PeerId = ℕ

abbrev pub QueryId : Type 0
QueryId = ℕ

module _ (QueryResult Addresses : Type 0) where
  -- What `recv` of the channel with the swarm's events gives: events of kad, the second with whether it
  -- is the last step of its query; other events; or an error, because the receiver was too slow or the
  -- channel is closed.
  pub data Received : Type 0 where
    routing_updated : PeerId → Addresses → Received
    outbound_query_progressed : QueryId → QueryResult → Bool → Received
    other : Received
    error : Received

  -- The task that a query waits for, once it knows its id. After an error there is an `unreachable!`.
  unfoldable pub collect : QueryId → List Received → List QueryResult → Run (List QueryResult)
  collect query_id [] results = stuck
  collect query_id (routing_updated peer addresses ∷ rest) results = collect query_id rest results
  collect query_id (outbound_query_progressed id result last ∷ rest) results =
      let skipped = collect query_id rest results in
      let more = collect query_id rest (results ++ (result ∷ [])) in
      if query_id == id then (if last then done (results ++ (result ∷ [])) else more) else skipped
  collect query_id (other ∷ rest) results = collect query_id rest results
  collect query_id (error ∷ rest) results = panicked

  unfoldable pub query : QueryId → List Received → Run (List QueryResult)
  unfolding collect
  query query_id events = collect query_id events []

  -- The task that `Handle::new` spawns.
  unfoldable pub listen : List Received → Table PeerId Addresses → Table PeerId Addresses
  listen [] tree_map = tree_map
  listen (routing_updated peer addresses ∷ rest) tree_map =
      listen rest (insert tree_map peer addresses)
  listen (outbound_query_progressed id result last ∷ rest) tree_map = listen rest tree_map
  listen (other ∷ rest) tree_map = listen rest tree_map
  listen (error ∷ rest) tree_map = tree_map

  unfoldable pub lookup : PeerId → Table PeerId Addresses → Option Addresses
  lookup peer_id tree_map = get tree_map peer_id
