-- ===== src/Advertise/Requests.antt =====
-- What the requests to the behaviour of protocols/owlnest-advertise leave alone.
use owl_nest.Base.{
  ◌≡◌, refl, sym, Option, none, some, List, [], ◌∷◌, ◌++◌, nat_key, length, contains, set_remove,
  arith, ◌≤◌, Bool-cases, inl, inr,
}
use owl_nest.Advertise.{
  PeerId, OutEvent, InEvent, Behaviour, SwarmEvent, notify_handler, answer_advertised_peer,
  not_providing, peers, handle_in_event, pop_event, poll_queries, poll, emit, answer,
  get_provider_state, set_remote_advertisement, set_provider_state, remove_advertised,
  list_advertised, clear_advertised, list_connected,
}

pub length-set_remove : (p : PeerId) (xs : List PeerId) → length (set_remove p xs) ≤ length xs
unfolding set_remove
length-set_remove p [] = omega arith
length-set_remove p (x ∷ xs) = ground (arith, length-set_remove p xs)

-- The peer whose query an event answers.
abbrev pub answered_one : Option SwarmEvent → List PeerId
answered_one (some (notify_handler peer (answer_advertised_peer list))) = peer ∷ []
answered_one _ = []

-- No query is answered or dropped, and no peer is advertised.
abbrev pub Kept : Behaviour → Option SwarmEvent × Behaviour → Type 0
Kept b (event, b') =
    (answered_one event ≡ [])
    × (b'.pending_query_answer ≡ b.pending_query_answer)
    × (b'.config ≡ b.config)
    × (length b'.advertised_peers ≤ length b.advertised_peers)

handle_in_event-Kept : (evs : List InEvent) (b : Behaviour) → Kept b (handle_in_event b evs)
unfolding handle_in_event
handle_in_event-Kept [] b = (refl, refl, refl, omega arith)
handle_in_event-Kept (InEvent.query_advertised_peer peer ∷ rest) b =
    elim (Bool-cases (contains peer b.connected_peers)) [
      | inl e ↦ rw (e, handle_in_event) (refl, refl, refl, omega arith)
      | inr e ↦
          rw (e, handle_in_event)
            (handle_in_event-Kept rest (emit b (OutEvent.error (not_providing peer))))
    ]
handle_in_event-Kept (get_provider_state callback ∷ rest) b = (refl, refl, refl, omega arith)
handle_in_event-Kept (set_remote_advertisement remote target callback ∷ rest) b =
    (refl, refl, refl, omega arith)
handle_in_event-Kept (set_provider_state target callback ∷ rest) b = (refl, refl, refl, omega arith)
handle_in_event-Kept (remove_advertised peer ∷ rest) b =
    (refl, refl, refl, length-set_remove peer b.advertised_peers)
handle_in_event-Kept (list_advertised callback ∷ rest) b =
    handle_in_event-Kept rest (answer b callback (peers b.advertised_peers))
handle_in_event-Kept (clear_advertised ∷ rest) b =
    let (none_answered, queries, config, fewer) =
      handle_in_event-Kept rest (record b { advertised_peers = [] }) in
    (none_answered, queries, config, omega arith)
handle_in_event-Kept (list_connected callback ∷ rest) b =
    handle_in_event-Kept rest (answer b callback (peers b.connected_peers))

pop_event-Kept :
    (b : Behaviour) (r : Option SwarmEvent × Behaviour) (evs : List OutEvent)
    → Kept b r
    → Kept b (pop_event r evs)
unfolding pop_event
pop_event-Kept b (some ev, b') evs k = k
pop_event-Kept b (none, b') [] k = k
pop_event-Kept b (none, b') (ev ∷ evs) k = k

-- A poll either takes the oldest query or leaves the queries alone.
poll_queries-cases :
    (b : Behaviour) (queries : List PeerId)
    → b.pending_query_answer ≡ queries
    → (answered_one (poll_queries b queries).0 ++ (poll_queries b queries).1.pending_query_answer
        ≡ b.pending_query_answer)
      × ((poll_queries b queries).1.config ≡ b.config)
      × (length (poll_queries b queries).1.advertised_peers ≤ length b.advertised_peers)
unfolding poll_queries
poll_queries-cases b [] e =
    let r = handle_in_event b b.in_events in
    let (none_answered, queries, config, fewer) =
      pop_event-Kept b r r.1.pending_out_events (handle_in_event-Kept b.in_events b) in
    (rw none_answered queries, config, fewer)
poll_queries-cases b (peer ∷ rest) e = (sym e, refl, omega arith)

pub poll-cases :
    (b : Behaviour)
    → (answered_one (poll b).0 ++ (poll b).1.pending_query_answer ≡ b.pending_query_answer)
      × ((poll b).1.config ≡ b.config)
      × (length (poll b).1.advertised_peers ≤ length b.advertised_peers)
unfolding poll
poll-cases b = poll_queries-cases b b.pending_query_answer refl
