-- ===== src/Select/Examples.antt =====
-- A node of two small protocols.
use owl_nest.Base.{
  ℕ, zero, suc, ◌+◌, ◌≡◌, refl, true, none, some, List, [], ◌∷◌, inl, inr, ok, err, ltb,
  if◌then◌else◌,
}
use owl_nest.Blob.Types.{done}
use owl_nest.Select
use owl_nest.Select.Behaviours.{
  NetworkBehaviour, generate_event, poll, on_connection_handler_event, on_swarm_event,
  handle_established_inbound_connection,
}
use owl_nest.Select.Behaviours.Admission.{
  Established, handle_established_inbound_connection-Established,
}
use owl_nest.Select.Behaviours.Steps.{Input, polled, reported, informed}
use owl_nest.Select.Behaviours.Runs.{run, RunGoesOn, run-RunGoesOn}
use owl_nest.Select.Handlers.{
  ConnectionHandler, notify_behaviour, outbound_substream_request, report_remote_protocols,
}
use owl_nest.Select.Handlers as Handlers
use owl_nest.Select.Handlers.Streams.{Delivered, poll-Delivered}

-- A behaviour that says as many numbers as its handlers have told it, and takes connections below a
-- limit.
abbrev counter : ℕ → NetworkBehaviour
counter limit = record {
  State = ℕ;
  Event = ℕ;
  FromHandler = ℕ;
  ToHandler = ℕ;
  Handler = ℕ;
  pending_inbound = λ c s. (ok tt, s);
  established_inbound = λ c s. if ltb c limit then (ok s, s) else (err c, s);
  pending_outbound = λ c s. (ok [], s);
  established_outbound = λ c s. (ok s, s);
  on_connection_handler_event = λ c n s. s + n;
  poll = λ s. elim s [ zero ↦ (none, 0) | suc n ↦ (some (generate_event n), n) ];
  on_swarm_event = λ ev s. s;
}

abbrev protocols : List NetworkBehaviour
protocols = counter 5 ∷ counter 9 ∷ []

-- The second is told 1 and the first 2; the first speaks until it has nothing more to say.
abbrev inputs : List (Input (Select.OneOf NetworkBehaviour.FromHandler protocols))
inputs =
    reported 0 (inr (inl 1))
    ∷ reported 0 (inl 2)
    ∷ polled
    ∷ polled
    ∷ polled
    ∷ informed 3
    ∷ polled
    ∷ []

run_test :
    run protocols (0, (0, tt)) inputs
    ≡ done (
      none
          ∷ none
          ∷ some (generate_event (inl 1))
          ∷ some (generate_event (inl 0))
          ∷ some (generate_event (inr (inl 0)))
          ∷ none
          ∷ none
          ∷ [],
      (0, (0, tt)),
    )
unfolding run poll on_connection_handler_event on_swarm_event
run_test = refl

run-RunGoesOn_example : RunGoesOn protocols (0, (0, tt)) inputs (run protocols (0, (0, tt)) inputs)
run-RunGoesOn_example = run-RunGoesOn protocols inputs (0, (0, tt))

handle_established_inbound_connection-Established_example :
    Established protocols 7
      (0, (0, tt))
      (handle_established_inbound_connection protocols 7 (0, (0, tt)))
handle_established_inbound_connection-Established_example =
    handle_established_inbound_connection-Established protocols 7 (0, (0, tt))

-- A handler that asks for a stream, unless it has a peer's protocols to report.
abbrev asking : ConnectionHandler
asking = record {
  State = List ℕ;
  FromBehaviour = ℕ;
  ToBehaviour = ℕ;
  OutProtocol = ℕ;
  OutInfo = ℕ;
  OutStream = ℕ;
  OutError = ℕ;
  InInfo = ℕ;
  InStream = ℕ;
  InError = ℕ;
  connection_keep_alive = λ s. true;
  poll = λ s. elim s [
    | [] ↦ (some (outbound_substream_request 1 2), [])
    | p ∷ ps ↦ (some (report_remote_protocols (p ∷ ps)), [])
  ];
  on_behaviour_event = λ ev s. s;
  on_connection_event = λ ev s. done s;
}

-- The report of the first is lost, and the request of the second comes out.
poll_test :
    Handlers.poll (asking ∷ asking ∷ []) (7 ∷ [], ([], tt))
    ≡ (some (outbound_substream_request (inr (inl 1)) (inr (inl 2))), ([], ([], tt)))
unfolding Handlers.poll
poll_test = refl

poll-Delivered_example :
    Delivered
      (asking ∷ asking ∷ [])
      (7 ∷ [], ([], tt))
      (Handlers.poll (asking ∷ asking ∷ []) (7 ∷ [], ([], tt))).0
poll-Delivered_example = poll-Delivered (asking ∷ asking ∷ []) (7 ∷ [], ([], tt))
