-- ===== src/Advertise/Queries.antt =====
-- The queries to a provider of protocols/owlnest-advertise, over a whole run of the behaviour.
use mathlib.Core.List.{append_assoc, append-nil}
use owl_nest.Base.{
  ◌≡◌, refl, sym, ◌∙◌, ap, true, false, Option, List, [], ◌∷◌, ◌++◌, leb, length, ltb, Bool-cases,
  inl, inr,
}
use owl_nest.Advertise.{
  PeerId, Config, ToBehaviour, Behaviour, new, SwarmEvent, push_event, on_connection_handler_event,
  on_swarm_event, Input, pushed, reported, closed, polled, step, run,
}
use owl_nest.Advertise.Requests.{answered_one, poll-cases}

-- The peers whose queries were answered, and those that asked, in order.
abbrev pub answered : List (Option SwarmEvent) → List PeerId
answered [] = []
answered (event ∷ events) = answered_one event ++ answered events

abbrev pub asked_one : Input → List PeerId
asked_one (reported peer ToBehaviour.incoming_query) = peer ∷ []
asked_one _ = []

abbrev pub asked : List Input → List PeerId
asked [] = []
asked (i ∷ is) = asked_one i ++ asked is

step-queries :
    (b : Behaviour) (i : Input)
    → answered_one (step b i).0 ++ (step b i).1.pending_query_answer
      ≡ b.pending_query_answer ++ asked_one i
unfolding push_event on_connection_handler_event on_swarm_event
step-queries b (pushed ev) = sym (append-nil b.pending_query_answer)
step-queries b (reported peer ToBehaviour.incoming_query) = refl
step-queries b (reported peer (ToBehaviour.incoming_advertise_req true)) =
    elim (Bool-cases (leb (length b.advertised_peers) b.config.max_advertise_capacity)) [
      | inl f ↦ rw (f, on_connection_handler_event) (sym (append-nil b.pending_query_answer))
      | inr f ↦ rw (f, on_connection_handler_event) (sym (append-nil b.pending_query_answer))
    ]
step-queries b (reported peer (ToBehaviour.incoming_advertise_req false)) =
    sym (append-nil b.pending_query_answer)
step-queries b (reported peer (ToBehaviour.query_answered result)) =
    sym (append-nil b.pending_query_answer)
step-queries b (reported peer (ToBehaviour.error e)) = sym (append-nil b.pending_query_answer)
step-queries b (reported peer ToBehaviour.inbound_negotiated) =
    sym (append-nil b.pending_query_answer)
step-queries b (reported peer ToBehaviour.outbound_negotiated) =
    sym (append-nil b.pending_query_answer)
step-queries b (closed peer remaining) = elim (Bool-cases (ltb remaining 1)) [
  | inl f ↦ rw (f, on_swarm_event) (sym (append-nil b.pending_query_answer))
  | inr f ↦ rw (f, on_swarm_event) (sym (append-nil b.pending_query_answer))
]
step-queries b polled = (poll-cases b).0 ∙ sym (append-nil b.pending_query_answer)

run-queries :
    (is : List Input) (b : Behaviour)
    → answered (run b is).0 ++ (run b is).1.pending_query_answer
      ≡ b.pending_query_answer ++ asked is
unfolding run
run-queries [] b = sym (append-nil b.pending_query_answer)
run-queries (i ∷ is) b =
    append_assoc (answered_one (step b i).0) _ _
    ∙ ap (λ ps. answered_one (step b i).0 ++ ps) (run-queries is (step b i).1)
    ∙ sym (append_assoc (answered_one (step b i).0) _ _)
    ∙ ap (λ ps. ps ++ asked is) (step-queries b i)
    ∙ append_assoc b.pending_query_answer (asked_one i) (asked is)

-- Over any run of a new behaviour, the peers whose queries were answered, in order, and then those
-- whose queries wait are the peers that asked: each query gets one answer, in its turn.
pub run-new-queries :
    (config : Config) (is : List Input)
    → answered (run (new config) is).0 ++ (run (new config) is).1.pending_query_answer ≡ asked is
unfolding new
run-new-queries config is = run-queries is (new config)
