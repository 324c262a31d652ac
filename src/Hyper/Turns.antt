-- ===== src/Hyper/Turns.antt =====
-- How long the loop in the poll of owlnest-hyper's handler turns.
use owl_nest.Base.{◌≡◌, refl, Option, none, some, List, [], ◌∷◌, ◌⊎◌, Bool-cases, inl, inr}
use owl_nest.Blob.Types.{Run, done, panicked, stuck}
use owl_nest.Hyper.{
  Handler, StreamState, ClientState, HandlerEvent, ClientPoll, TapPoll, Round, Turn, go_on, leave,
  give, panic, and_then, check_inbound, check_outbound, check_client, check_server_events,
  check_client_events, turn, pop_report, poll_loop,
}

-- No request is under way or waits to be sent, and the loop will be left in its next turn: there is no
-- stream, or a client is ready on one.
abbrev pub Idle : Handler → Type 0
Idle h = (h.ongoing_request ≡ none) × (h.pending_requests ≡ [])

abbrev Calm : Handler → Type 0
Calm h =
    Idle h
    × ((h.outbound_stream ≡ none)
        ⊎ ((h.outbound_stream ≡ some StreamState.consumed) × (h.client ≡ some ClientState.ready)))

-- What is so if the turn goes on.
On : (Handler → Type 0) → Turn → Type 0
On P (go_on h) = P h
On P (leave h) = Unit
On P (give ev h) = Unit
On P panic = Unit

and_then-On :
    (P Q : Handler → Type 0) (t : Turn) (f : Handler → Turn)
    → On P t
    → ((h : Handler) → P h → On Q (f h))
    → On Q (and_then t f)
unfolding and_then On
and_then-On P Q (go_on h) f p all = all h p
and_then-On P Q (leave h) f p all = tt
and_then-On P Q (give ev h) f p all = tt
and_then-On P Q panic f p all = tt

-- Properties that do not look at the inbound stream and the taps.
check_inbound-Idle : (h : Handler) → Idle h → On Idle (check_inbound h)
unfolding check_inbound On
check_inbound-Idle h p = by_stream h.inbound_stream refl
  where
    by_stream : (o : Option StreamState) → h.inbound_stream ≡ o → On Idle (check_inbound h)
    by_stream none e = rw (e, check_inbound) p
    by_stream (some StreamState.negotiating) e = rw (e, check_inbound) tt
    by_stream (some StreamState.ready) e = rw (e, check_inbound) p
    by_stream (some StreamState.consumed) e = rw (e, check_inbound) p

check_inbound-Calm : (h : Handler) → Calm h → On Calm (check_inbound h)
unfolding check_inbound On
check_inbound-Calm h p = by_stream h.inbound_stream refl
  where
    by_stream : (o : Option StreamState) → h.inbound_stream ≡ o → On Calm (check_inbound h)
    by_stream none e = rw (e, check_inbound) p
    by_stream (some StreamState.negotiating) e = rw (e, check_inbound) tt
    by_stream (some StreamState.ready) e = rw (e, check_inbound) p
    by_stream (some StreamState.consumed) e = rw (e, check_inbound) p

-- Past the outbound stream.
abbrev Past : Handler → Type 0
Past h =
    Idle h
    × (((h.outbound_stream ≡ none) × (h.client ≡ some ClientState.opening))
        ⊎ (h.outbound_stream ≡ some StreamState.consumed))

check_outbound-Past : (h : Handler) → Idle h → On Past (check_outbound h)
unfolding check_outbound On
check_outbound-Past h p = by_stream h.outbound_stream refl
  where
    by_stream : (o : Option StreamState) → h.outbound_stream ≡ o → On Past (check_outbound h)
    by_stream none e = rw (e, check_outbound) tt
    by_stream (some StreamState.negotiating) e = rw (e, check_outbound) tt
    by_stream (some StreamState.ready) e = rw (e, check_outbound) (p, inl (refl, refl))
    by_stream (some StreamState.consumed) e = rw (e, check_outbound) (p, inr e)

check_client-Calm : (answer : ClientPoll) (h : Handler) → Past h → On Calm (check_client answer h)
unfolding check_client On
check_client-Calm answer h (p, q) = by_client h.client refl answer
  where
    opened :
        ((h.outbound_stream ≡ none) × (h.client ≡ some ClientState.opening))
          ⊎ (h.outbound_stream ≡ some StreamState.consumed)
        → Calm (record h { client = some ClientState.ready })
    opened (inl (e, f)) = (p, inl e)
    opened (inr e) = (p, inr (e, refl))

    by_client :
        (o : Option ClientState)
        → h.client ≡ o
        → (answer : ClientPoll) → On Calm (check_client answer h)
    by_client none e answer = rw (e, check_client) (p, inl refl)
    by_client (some ClientState.ready) e answer = rw (e, p.0, p.1, check_client) tt
    by_client (some ClientState.opening) e ClientPoll.waiting = rw (e, check_client) tt
    by_client (some ClientState.opening) e ClientPoll.opened = rw (e, check_client) (opened q)
    by_client (some ClientState.opening) e ClientPoll.failed = rw (e, check_client) tt

check_server_events-Calm :
    (answer : TapPoll) (h : Handler) → Calm h → On Calm (check_server_events answer h)
unfolding check_server_events On
check_server_events-Calm TapPoll.waiting h p = p
check_server_events-Calm TapPoll.message h p = p
check_server_events-Calm TapPoll.dropped h p = elim (Bool-cases h.server_event_tap) [
  | inl e ↦ rw (e, check_server_events) tt
  | inr e ↦ rw (e, check_server_events) p
]

check_client_events-Calm :
    (answer : TapPoll) (h : Handler) → Calm h → On Calm (check_client_events answer h)
unfolding check_client_events On
check_client_events-Calm TapPoll.waiting h p = p
check_client_events-Calm TapPoll.message h p = p
check_client_events-Calm TapPoll.dropped h p = elim (Bool-cases h.client_event_tap) [
  | inl e ↦ rw (e, check_client_events) tt
  | inr e ↦ rw (e, check_client_events) p
]

turn-Calm : (r : Round) (h : Handler) → Idle h → On Calm (turn r h)
unfolding turn
turn-Calm r h p = and_then-On Idle Calm (check_inbound h) _ (check_inbound-Idle h p) λ h p.
    and_then-On Past Calm (check_outbound h) _ (check_outbound-Past h p) λ h p.
      and_then-On Calm Calm (check_client r.client h) _ (check_client-Calm r.client h p) λ h p.
        and_then-On Calm Calm (check_server_events r.server_events h) _
          (check_server_events-Calm r.server_events h p)
          λ h p. check_client_events-Calm r.client_events h p

-- A client is ready on its stream, and nothing is to be sent.
abbrev Settled : Handler → Type 0
Settled h = Idle h × (h.client ≡ some ClientState.ready)

check_outbound-Settled : (h : Handler) → Calm h → On Settled (check_outbound h)
unfolding check_outbound On
check_outbound-Settled h (p, inl e) = rw (e, check_outbound) tt
check_outbound-Settled h (p, inr (e, f)) = rw (e, check_outbound) (p, f)

check_client-stops :
    (answer : ClientPoll) (h : Handler) → Settled h → On (λ h. ⊥) (check_client answer h)
unfolding check_client On
check_client-stops answer h ((e, f), g) = rw (g, e, f, check_client) tt

turn-stops : (r : Round) (h : Handler) → Calm h → On (λ h. ⊥) (turn r h)
unfolding turn
turn-stops r h p =
    and_then-On Calm (λ h. ⊥) (check_inbound h) _ (check_inbound-Calm h p)
      λ h p.
        and_then-On Settled (λ h. ⊥) (check_outbound h) _ (check_outbound-Settled h p)
          λ h p.
            and_then-On (λ h. ⊥) (λ h. ⊥) (check_client r.client h) _
              (check_client-stops r.client h p) λ h p. absurd p

-- A call that comes to an end.
abbrev pub Ended : Run (Option HandlerEvent × Handler) → Type 0
Ended (done x) = Unit
Ended panicked = Unit
Ended stuck = ⊥

poll_loop-stops :
    (r : Round) (rest : List Round) (h : Handler) → Calm h → Ended (poll_loop (r ∷ rest) h)
unfolding poll_loop On
poll_loop-stops r rest h p = by_turn (turn r h) (turn-stops r h p)
  where
    by_turn :
        (t : Turn)
        → On (λ h. ⊥) t
        → Ended (elim t as (λ _. Run (Option HandlerEvent × Handler)) [
          | go_on h' ↦ poll_loop rest h'
          | leave h' ↦ done (pop_report h')
          | give ev h' ↦ done (some ev, h')
          | panic ↦ panicked
        ])
    by_turn (go_on h') q = absurd q
    by_turn (leave h') q = tt
    by_turn (give ev h') q = tt
    by_turn panic q = tt

-- Two turns are enough for a poll in which no request is under way.
pub poll_loop-Ended :
    (r r' : Round) (rest : List Round) (h : Handler) → Idle h → Ended (poll_loop (r ∷ r' ∷ rest) h)
unfolding poll_loop On
poll_loop-Ended r r' rest h p = by_turn (turn r h) (turn-Calm r h p)
  where
    by_turn :
        (t : Turn)
        → On Calm t
        → Ended (elim t as (λ _. Run (Option HandlerEvent × Handler)) [
          | go_on h' ↦ poll_loop (r' ∷ rest) h'
          | leave h' ↦ done (pop_report h')
          | give ev h' ↦ done (some ev, h')
          | panic ↦ panicked
        ])
    by_turn (go_on h') q = poll_loop-stops r' rest h' q
    by_turn (leave h') q = tt
    by_turn (give ev h') q = tt
    by_turn panic q = tt
