-- ===== src/Hyper/Examples.antt =====
-- A run of the handler of owlnest-hyper, and its theorem there.
use owl_nest.Base.{◌≡◌, refl, some, List, [], ◌∷◌, true}
use owl_nest.Blob.Types.{done}
use owl_nest.Hyper.{
  Handler, new, FromBehaviourEvent, Round, ClientPoll, TapPoll, ClientState, StreamState,
  fully_negotiated_outbound, poll, on_behaviour_event, on_connection_event,
}
use owl_nest.Hyper.Requests.{Comes, Unsent}
use owl_nest.Hyper.Runs.{Input, asked, connected, polled, run, run-new-Unsent}

abbrev round : Round
round = record {
  client = ClientPoll.opened;
  server_events = TapPoll.waiting;
  client_events = TapPoll.waiting;
}

-- A request, then a stream and its client, which is opened and lost at once.
abbrev inputs : List Input
inputs =
    asked (FromBehaviourEvent.request 1 7)
    ∷ polled round round []
    ∷ connected fully_negotiated_outbound
    ∷ polled round round []
    ∷ []

run_test :
    run inputs new
    ≡ done (record new {
      pending_in_events = FromBehaviourEvent.request 1 7 ∷ [];
      outbound_stream = some StreamState.negotiating;
      pending_out_events = owl_nest.Hyper.ToBehaviourEvent.outbound_negotiated ∷ [];
      client = some ClientState.ready;
      client_event_tap = true;
    })
unfolding run new poll on_behaviour_event on_connection_event
run_test = refl

run-new-Unsent_example : Comes (Unsent (FromBehaviourEvent.request 1 7 ∷ [])) (run inputs new)
run-new-Unsent_example = run-new-Unsent inputs
