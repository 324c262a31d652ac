-- ===== src/Advertise/Examples.antt =====
-- Runs of protocols/owlnest-advertise at concrete inputs, and its theorems there.
use owl_nest.Base.{◌≡◌, refl, true, none, some, List, [], ◌∷◌, ◌++◌, contains, set_insert, nat_key}
use owl_nest.Advertise.{
  Config, Behaviour, set_provider_state, ToBehaviour, new, Input, pushed, reported, polled, run,
  push_event, poll, on_connection_handler_event, notify_handler, generate_event,
  answer_advertised_peer, provider_state,
}
use owl_nest.Advertise.Capacity.{Bounded, run-new-Bounded}
use owl_nest.Advertise.Queries.{answered, run-new-queries}
use owl_nest.Base.{zero, suc, false, String, map, ◌⊎◌, inl, inr}
use owl_nest.Advertise.{FromBehaviour}
use owl_nest.Advertise.Handler.{
  Json, Packet, Bytes, Handler, new as new_handler, idle, poll_outbound,
}
use owl_nest.Advertise.Handler.Delivery.{
  Sent, sent_bytes, succeeded, receive_all, requests_delivered,
}

abbrev config : Config
config = record { timeout_ms = 30000; max_advertise_capacity = 1 }

-- Peers 7, 8 and 9 ask to be advertised, and the first two are; 5 and 6 query, before and after the
-- behaviour is told to be a provider.
abbrev inputs : List Input
inputs =
    reported 7 (ToBehaviour.incoming_advertise_req true)
    ∷ reported 8 (ToBehaviour.incoming_advertise_req true)
    ∷ reported 9 (ToBehaviour.incoming_advertise_req true)
    ∷ reported 5 ToBehaviour.incoming_query
    ∷ polled
    ∷ pushed (set_provider_state true 1)
    ∷ polled
    ∷ reported 6 ToBehaviour.incoming_query
    ∷ polled
    ∷ reported 4 ToBehaviour.incoming_query
    ∷ []

run_test :
    (run (new config) inputs).0
    ≡ none
      ∷ none
      ∷ none
      ∷ none
      ∷ some (notify_handler 5 (answer_advertised_peer none))
      ∷ none
      ∷ some (generate_event (provider_state true))
      ∷ none
      ∷ some (notify_handler 6 (answer_advertised_peer (some (8 ∷ 7 ∷ []))))
      ∷ none
      ∷ []
unfolding run new push_event poll on_connection_handler_event set_insert contains
run_test = refl

run-new-queries_example :
    answered (run (new config) inputs).0 ++ (run (new config) inputs).1.pending_query_answer
    ≡ 5 ∷ 6 ∷ 4 ∷ []
run-new-queries_example = run-new-queries config inputs

run-new-Bounded_example : Bounded config (run (new config) inputs).1
run-new-Bounded_example = run-new-Bounded config inputs

abbrev full : Behaviour
full = record (new config) { advertised_peers = 7 ∷ [] }

-- An encoding of packets as a tag and numbers.
abbrev to_vec : Packet → Bytes
to_vec (Packet.advertise_self true) = 0 ∷ 1 ∷ []
to_vec (Packet.advertise_self false) = 0 ∷ []
to_vec Packet.query_advertised_peer = 1 ∷ []
to_vec (Packet.answer_advertised_peer none) = 2 ∷ []
to_vec (Packet.answer_advertised_peer (some peers)) = 3 ∷ peers

abbrev from_slice : Bytes → String ⊎ Packet
from_slice [] = inl "EOF"
from_slice (zero ∷ []) = inr (Packet.advertise_self false)
from_slice (zero ∷ b ∷ bs) = inr (Packet.advertise_self true)
from_slice (suc zero ∷ bs) = inr Packet.query_advertised_peer
from_slice (suc (suc zero) ∷ bs) = inr (Packet.answer_advertised_peer none)
from_slice (suc (suc (suc n)) ∷ bs) = inr (Packet.answer_advertised_peer (some bs))

from_slice-to_vec : (packet : Packet) → from_slice (to_vec packet) ≡ inr packet
from_slice-to_vec (Packet.advertise_self true) = refl
from_slice-to_vec (Packet.advertise_self false) = refl
from_slice-to_vec Packet.query_advertised_peer = refl
from_slice-to_vec (Packet.answer_advertised_peer none) = refl
from_slice-to_vec (Packet.answer_advertised_peer (some peers)) = refl

abbrev json : Json
json = record { to_vec = to_vec; from_slice = from_slice; from_slice-to_vec = from_slice-to_vec }

-- A handler with a free stream and two requests, and one that reads.
abbrev sender : Handler
sender = record new_handler {
  pending_in_events =
      FromBehaviour.query_advertised_peer
      ∷ FromBehaviour.answer_advertised_peer (some (8 ∷ 7 ∷ []))
      ∷ [];
  outbound = some (idle 4);
}

abbrev reader : Handler
reader = record new_handler { inbound = some 5 }

requests_delivered_example :
    (messages : List Bytes) × Sent json
      (sent_bytes json sender ++ messages)
      (poll_outbound json (map succeeded ((4, 9) ∷ (4, 8) ∷ [])) sender)
    × ((receive_all json 5 messages reader).pending_out_events
        ≡ [] ++ (ToBehaviour.incoming_query ∷ ToBehaviour.query_answered (some (8 ∷ 7 ∷ [])) ∷ []))
unfolding new_handler
requests_delivered_example =
    requests_delivered json ((4, 9) ∷ (4, 8) ∷ []) 4 5 5 sender reader refl refl refl
