-- ===== src/Advertise/Front/Examples.antt =====
-- The user's handle of the advertisements at concrete inputs.
use owl_nest.Base.{err}
use owl_nest.Base.{◌≡◌, refl, false, List, [], ◌∷◌, ◌++◌, none, contains, arith}
use owl_nest.Blob.Types.{done}
use owl_nest.Advertise.{
  Behaviour, not_providing, OutEvent, InEvent, incoming_query, new, default_config, push_event,
  poll, on_connection_handler_event, polled, pushed, reported,
}
use owl_nest.Advertise.Front.{
  Occurrence, happens, elsewhere, published, listen_query, query_advertised_peer,
}
use owl_nest.Advertise.Front.Answers.{Answered}
use owl_nest.Advertise.Front.Unconnected.{query_advertised_peer-unconnected}

-- A behaviour that is connected to 7, advertises 8, and has an answer of 6 and two queries to deal
-- with.
abbrev busy : Behaviour
busy = record (new default_config) {
  connected_peers = 7 ∷ [];
  advertised_peers = 8 ∷ [];
  pending_query_answer = 4 ∷ 5 ∷ [];
  pending_out_events = OutEvent.query_answered 6 none ∷ [];
}

-- Another client asks 9 as well, and 7 sends a query.
abbrev before : List Occurrence
before = happens (reported 7 incoming_query) ∷ happens polled ∷ []

abbrev after : List Occurrence
after =
    happens polled
    ∷ happens (pushed (InEvent.query_advertised_peer 9))
    ∷ elsewhere
    ∷ happens polled
    ∷ happens polled
    ∷ happens polled
    ∷ happens polled
    ∷ happens polled
    ∷ happens polled
    ∷ []

query_test : query_advertised_peer before after busy 9 ≡ done (err (not_providing 9))
unfolding query_advertised_peer listen_query push_event poll on_connection_handler_event contains
    new
query_test = refl

query_advertised_peer-unconnected_example :
    Answered 9 false
      (published busy (before ++ happens (pushed (InEvent.query_advertised_peer 9)) ∷ after))
      (query_advertised_peer before after busy 9)
unfolding contains new poll on_connection_handler_event
query_advertised_peer-unconnected_example =
    query_advertised_peer-unconnected before after busy 9 refl refl (omega arith)
