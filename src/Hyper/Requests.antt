-- ===== src/Hyper/Requests.antt =====
-- A poll of the handler of owlnest-hyper and the requests that its behaviour passed to it.
use owl_nest.Base.{◌≡◌, refl, true, false, Option, none, some, List, [], ◌∷◌, Bool-cases, inl, inr}
use owl_nest.Blob.Types.{Run, done, panicked, stuck}
use owl_nest.Blob.Invariant.Formed.{Ends}
use owl_nest.Hyper.Turns.{Ended, poll_loop-Ended}
use owl_nest.Hyper.{
  FromBehaviourEvent, ToBehaviourEvent, Handler, State, inactive, active, StreamState, ClientState,
  HandlerEvent, ClientPoll, TapPoll, Round, Turn, go_on, leave, give, panic, and_then,
  check_inbound, check_outbound, check_client, check_server_events, check_client_events, turn,
  pop_report, poll_loop, poll, ConnectionEvent, fully_negotiated_inbound, fully_negotiated_outbound,
  dial_upgrade_error, address_change, protocols_change, uncovered, on_dial_upgrade_error,
  on_connection_event,
}

-- A call that ends, with a result that is so, or panics.
abbrev pub Comes {ℓ} : {A : Type ℓ} → (A → Type 0) → Run A → Type 0
Comes P (done a) = P a
Comes P panicked = Unit
Comes P stuck = ⊥

-- These requests came from the behaviour, and none of them went any further.
abbrev pub Unsent : List FromBehaviourEvent → Handler → Type 0
Unsent evs h = (h.pending_in_events ≡ evs) × (h.ongoing_request ≡ none) × (h.pending_requests ≡ [])

module _ (evs : List FromBehaviourEvent) where
  TurnUnsent : Turn → Type 0
  TurnUnsent (go_on h) = Unsent evs h
  TurnUnsent (leave h) = Unsent evs h
  TurnUnsent (give ev h) = Unsent evs h
  TurnUnsent panic = Unit

  and_then-TurnUnsent :
      (t : Turn) (f : Handler → Turn)
      → TurnUnsent t
      → ((h : Handler) → Unsent evs h → TurnUnsent (f h))
      → TurnUnsent (and_then t f)
  unfolding and_then TurnUnsent
  and_then-TurnUnsent (go_on h) f u all = all h u
  and_then-TurnUnsent (leave h) f u all = u
  and_then-TurnUnsent (give ev h) f u all = u
  and_then-TurnUnsent panic f u all = u

  check_inbound-TurnUnsent : (h : Handler) → Unsent evs h → TurnUnsent (check_inbound h)
  unfolding check_inbound TurnUnsent
  check_inbound-TurnUnsent h u = by_stream h.inbound_stream refl
    where
      by_stream : (o : Option StreamState) → h.inbound_stream ≡ o → TurnUnsent (check_inbound h)
      by_stream none e = rw (e, check_inbound) u
      by_stream (some StreamState.negotiating) e = rw (e, check_inbound) u
      by_stream (some StreamState.ready) e = rw (e, check_inbound) u
      by_stream (some StreamState.consumed) e = rw (e, check_inbound) u

  check_outbound-TurnUnsent : (h : Handler) → Unsent evs h → TurnUnsent (check_outbound h)
  unfolding check_outbound TurnUnsent
  check_outbound-TurnUnsent h u = by_stream h.outbound_stream refl
    where
      by_stream : (o : Option StreamState) → h.outbound_stream ≡ o → TurnUnsent (check_outbound h)
      by_stream none e = rw (e, check_outbound) u
      by_stream (some StreamState.negotiating) e = rw (e, check_outbound) u
      by_stream (some StreamState.ready) e = rw (e, check_outbound) u
      by_stream (some StreamState.consumed) e = rw (e, check_outbound) u

  check_client-TurnUnsent :
      (answer : ClientPoll) (h : Handler) → Unsent evs h → TurnUnsent (check_client answer h)
  unfolding check_client TurnUnsent
  check_client-TurnUnsent answer h u = by_client h.client refl answer
    where
      by_client :
          (o : Option ClientState)
          → h.client ≡ o
          → (answer : ClientPoll) → TurnUnsent (check_client answer h)
      by_client none e answer = rw (e, check_client) u
      by_client (some ClientState.ready) e answer = rw (e, u.1, u.2, check_client) u
      by_client (some ClientState.opening) e ClientPoll.waiting = rw (e, check_client) u
      by_client (some ClientState.opening) e ClientPoll.opened = rw (e, check_client) u
      by_client (some ClientState.opening) e ClientPoll.failed = rw (e, check_client) tt

  check_server_events-TurnUnsent :
      (answer : TapPoll) (h : Handler) → Unsent evs h → TurnUnsent (check_server_events answer h)
  unfolding check_server_events TurnUnsent
  check_server_events-TurnUnsent TapPoll.waiting h u = u
  check_server_events-TurnUnsent TapPoll.message h u = u
  check_server_events-TurnUnsent TapPoll.dropped h u = elim (Bool-cases h.server_event_tap) [
    | inl e ↦ rw (e, check_server_events) u
    | inr e ↦ rw (e, check_server_events) u
  ]

  check_client_events-TurnUnsent :
      (answer : TapPoll) (h : Handler) → Unsent evs h → TurnUnsent (check_client_events answer h)
  unfolding check_client_events TurnUnsent
  check_client_events-TurnUnsent TapPoll.waiting h u = u
  check_client_events-TurnUnsent TapPoll.message h u = u
  check_client_events-TurnUnsent TapPoll.dropped h u = elim (Bool-cases h.client_event_tap) [
    | inl e ↦ rw (e, check_client_events) u
    | inr e ↦ rw (e, check_client_events) u
  ]

  turn-TurnUnsent : (r : Round) (h : Handler) → Unsent evs h → TurnUnsent (turn r h)
  unfolding turn
  turn-TurnUnsent r h u =
      and_then-TurnUnsent (check_inbound h) _ (check_inbound-TurnUnsent h u) λ h u.
        and_then-TurnUnsent (check_outbound h) _ (check_outbound-TurnUnsent h u) λ h u.
          and_then-TurnUnsent (check_client r.client h) _ (check_client-TurnUnsent r.client h u)
            λ h u.
              and_then-TurnUnsent (check_server_events r.server_events h) _
                (check_server_events-TurnUnsent r.server_events h u)
                λ h u. check_client_events-TurnUnsent r.client_events h u

  abbrev RunUnsent : Run (Option HandlerEvent × Handler) → Type 0
  RunUnsent r = Ends (λ x. Unsent evs x.1) r

  comes :
      (r : Run (Option HandlerEvent × Handler))
      → Ended r
      → RunUnsent r
      → Comes (λ x. Unsent evs x.1) r
  comes (done x) e u = u
  comes panicked e u = tt
  comes stuck e u = e

  pop_report-Unsent : (h : Handler) → Unsent evs h → Unsent evs (pop_report h).1
  unfolding pop_report
  pop_report-Unsent h u = by_reports h.pending_out_events refl
    where
      by_reports :
          (out : List ToBehaviourEvent) → h.pending_out_events ≡ out → Unsent evs (pop_report h).1
      by_reports [] e = rw (e, pop_report) u
      by_reports (ev ∷ rest) e = rw (e, pop_report) u

  poll_loop-Unsent :
      (rounds : List Round) (h : Handler) → Unsent evs h → RunUnsent (poll_loop rounds h)
  unfolding poll_loop TurnUnsent
  poll_loop-Unsent [] h u = tt
  poll_loop-Unsent (r ∷ rest) h u =
      by_turn (turn r h) (turn-TurnUnsent r h u) λ h' u'. poll_loop-Unsent rest h' u'
    where
      by_turn :
          (t : Turn)
          → TurnUnsent t
          → ((h' : Handler) → Unsent evs h' → RunUnsent (poll_loop rest h'))
          → RunUnsent (elim t as (λ _. Run (Option HandlerEvent × Handler)) [
            | go_on h' ↦ poll_loop rest h'
            | leave h' ↦ done (pop_report h')
            | give ev h' ↦ done (some ev, h')
            | panic ↦ panicked
          ])
      by_turn (go_on h') u' all = all h' u'
      by_turn (leave h') u' all = pop_report-Unsent h' u'
      by_turn (give ev h') u' all = u'
      by_turn panic u' all = tt

  pub poll-Unsent :
      (r r' : Round) (rest : List Round) (h : Handler)
      → Unsent evs h
      → Comes (λ x. Unsent evs x.1) (poll (r ∷ r' ∷ rest) h)
  unfolding poll
  poll-Unsent r r' rest h u = by_state h.state refl
    where
      by_state : (s : State) → h.state ≡ s → Comes (λ x. Unsent evs x.1) (poll (r ∷ r' ∷ rest) h)
      by_state (inactive true) e = rw (e, poll) u
      by_state (inactive false) e = rw (e, poll) u
      by_state active e =
          rw (e, poll)
            (comes (poll_loop (r ∷ r' ∷ rest) h) (poll_loop-Ended r r' rest h (u.1, u.2))
              (poll_loop-Unsent (r ∷ r' ∷ rest) h u))

  pub on_connection_event-Unsent :
      (h : Handler) (ev : ConnectionEvent)
      → Unsent evs h
      → Comes (Unsent evs) (on_connection_event h ev)
  unfolding on_connection_event on_dial_upgrade_error
  on_connection_event-Unsent h fully_negotiated_inbound u = u
  on_connection_event-Unsent h fully_negotiated_outbound u = u
  on_connection_event-Unsent h (dial_upgrade_error true) u = u
  on_connection_event-Unsent h (dial_upgrade_error false) u = u
  on_connection_event-Unsent h address_change u = u
  on_connection_event-Unsent h protocols_change u = u
  on_connection_event-Unsent h uncovered u = tt
