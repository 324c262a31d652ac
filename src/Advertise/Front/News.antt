-- ===== src/Advertise/Front/News.antt =====
-- What the behaviour of protocols/owlnest-advertise owes to a query of
-- owlnest/src/net/p2p/protocols/advertise.rs for a peer that it is not connected to, and what one input
-- does about it.
use owl_nest.Base.{
  ℕ, suc, ◌+◌, ◌*◌, ◌≤◌, ◌-◌, ◌≡◌, refl, ap, Bool, true, false, ◌||◌, Option, none, some, List, [],
  ◌∷◌, ◌++◌, length, length-append, contains, ◌==◌, nat_key, nat_beq_iff, arith, if◌then◌else◌,
  Bool-cases, inl, inr, ◌⊎◌, is_some,
}
use owl_nest.Advertise.{
  PeerId, not_providing, OutEvent, InEvent, Behaviour, SwarmEvent, generate_event, emit, answer,
  peers, handle_in_event, pop_event, poll_queries, poll, get_provider_state,
  set_remote_advertisement, set_provider_state, remove_advertised, list_advertised,
  clear_advertised, list_connected, query_answered,
}

-- An event that a query of the peer returns with.
abbrev pub is_news : PeerId → OutEvent → Bool
is_news relay (query_answered from list) = from == relay
is_news relay (OutEvent.error (not_providing peer)) = peer == relay
is_news relay _ = false

abbrev pub any_news : PeerId → List OutEvent → Bool
any_news relay [] = false
any_news relay (ev ∷ evs) = is_news relay ev || any_news relay evs

abbrev pub any_query : PeerId → List InEvent → Bool
any_query relay [] = false
any_query relay (InEvent.query_advertised_peer peer ∷ evs) = peer == relay || any_query relay evs
any_query relay (_ ∷ evs) = any_query relay evs

-- The behaviour has news of the peer to publish, or a query of it to deal with.
abbrev pub is_owed : PeerId → Behaviour → Bool
is_owed relay b = any_news relay b.pending_out_events || any_query relay b.in_events

pub any_news-append :
    (relay : PeerId) (xs ys : List OutEvent)
    → any_news relay (xs ++ ys) ≡ (any_news relay xs || any_news relay ys)
any_news-append relay [] ys = refl
any_news-append relay (x ∷ xs) ys = ground (arith, any_news-append relay xs ys)

pub any_query-append :
    (relay : PeerId) (xs ys : List InEvent)
    → any_query relay (xs ++ ys) ≡ (any_query relay xs || any_query relay ys)
any_query-append relay [] ys = refl
any_query-append relay (InEvent.query_advertised_peer p ∷ xs) ys =
    ground (arith, any_query-append relay xs ys)
any_query-append relay (_ ∷ xs) ys = any_query-append relay xs ys

abbrev pub tells : PeerId → Option SwarmEvent → Bool
tells relay (some (generate_event ev)) = is_news relay ev
tells relay _ = false

-- The loop over the requests keeps what is owed, and the work that is left gets less.
record Passes (relay : PeerId) (b : Behaviour) (evs : List InEvent)
    (r : Option SwarmEvent × Behaviour) : Type 0 where
  owed :
      (any_news relay b.pending_out_events || any_query relay evs) ≡ true → is_owed relay r.1 ≡ true
  connected : r.1.connected_peers ≡ b.connected_peers
  queries : r.1.pending_query_answer ≡ b.pending_query_answer
  less :
      length r.1.pending_out_events + 2 * length r.1.in_events + (if is_some r.0 then 1 else 0)
      ≤ length b.pending_out_events + 2 * length evs
  drained : (is_some r.0 ≡ true) ⊎ (r.1.in_events ≡ [])

handle_in_event-Passes :
    (relay : PeerId) (evs : List InEvent) (b : Behaviour)
    → contains relay b.connected_peers ≡ false
    → Passes relay b evs (handle_in_event b evs)
unfolding handle_in_event
handle_in_event-Passes relay [] b unconnected = record {
  owed = λ e. e;
  connected = refl;
  queries = refl;
  less = omega arith;
  drained = inr refl;
}
handle_in_event-Passes relay (InEvent.query_advertised_peer p ∷ evs) b unconnected =
    elim (Bool-cases (contains p b.connected_peers)) [
      | inl c ↦
          rw (c, handle_in_event)
            (record {
              owed = λ e. ground (arith, nat_beq_iff p relay);
              connected = refl;
              queries = refl;
              less = omega arith;
              drained = inl refl;
            })
      | inr c ↦
          let failed = OutEvent.error (not_providing p) in
          let ih = handle_in_event-Passes relay evs (emit b failed) unconnected in
          rw (c, handle_in_event)
            (record {
              owed = λ e.
                  ih.owed
                    (ground (arith, any_news-append relay b.pending_out_events (failed ∷ [])));
              connected = ih.connected;
              queries = ih.queries;
              less = omega (arith, ih.less, length-append b.pending_out_events (failed ∷ []));
              drained = ih.drained;
            })
    ]
handle_in_event-Passes relay (get_provider_state callback ∷ evs) b unconnected = record {
  owed = λ e. e;
  connected = refl;
  queries = refl;
  less = omega arith;
  drained = inl refl;
}
handle_in_event-Passes relay (set_remote_advertisement remote target callback ∷ evs) b unconnected =
    record {
      owed = λ e. e;
      connected = refl;
      queries = refl;
      less = omega arith;
      drained = inl refl;
    }
handle_in_event-Passes relay (set_provider_state target callback ∷ evs) b unconnected = record {
  owed = λ e. e;
  connected = refl;
  queries = refl;
  less = omega arith;
  drained = inl refl;
}
handle_in_event-Passes relay (remove_advertised p ∷ evs) b unconnected = record {
  owed = λ e. e;
  connected = refl;
  queries = refl;
  less = omega arith;
  drained = inl refl;
}
handle_in_event-Passes relay (list_advertised callback ∷ evs) b unconnected =
    let ih =
      handle_in_event-Passes relay evs (answer b callback (peers b.advertised_peers)) unconnected in
    record {
      owed = ih.owed;
      connected = ih.connected;
      queries = ih.queries;
      less = omega (arith, ih.less);
      drained = ih.drained;
    }
handle_in_event-Passes relay (clear_advertised ∷ evs) b unconnected =
    let ih = handle_in_event-Passes relay evs (record b { advertised_peers = [] }) unconnected in
    record {
      owed = ih.owed;
      connected = ih.connected;
      queries = ih.queries;
      less = omega (arith, ih.less);
      drained = ih.drained;
    }
handle_in_event-Passes relay (list_connected callback ∷ evs) b unconnected =
    let ih =
      handle_in_event-Passes relay evs (answer b callback (peers b.connected_peers)) unconnected in
    record {
      owed = ih.owed;
      connected = ih.connected;
      queries = ih.queries;
      less = omega (arith, ih.less);
      drained = ih.drained;
    }

-- What is left to do, in polls.
abbrev pub work : Behaviour → ℕ
work b = length b.pending_query_answer + length b.pending_out_events + 2 * length b.in_events

-- One poll publishes what is owed or keeps it, and does a part of the work.
pub record Polled (relay : PeerId) (b : Behaviour) (r : Option SwarmEvent × Behaviour)
    : Type 0 where
  pub owed : is_owed relay b ≡ true → (tells relay r.0 || is_owed relay r.1) ≡ true
  pub connected : r.1.connected_peers ≡ b.connected_peers
  pub less : work r.1 ≤ work b - 1

pop_event-Polled :
    (relay : PeerId) (b : Behaviour) (r : Option SwarmEvent × Behaviour) (evs : List OutEvent)
    → Passes relay b b.in_events r
    → b.pending_query_answer ≡ []
    → r.1.pending_out_events ≡ evs
    → Polled relay b (pop_event r evs)
unfolding pop_event
pop_event-Polled relay b (some ev, b') evs passes quiet out = record {
  owed = λ e. ground (arith, passes.owed e);
  connected = passes.connected;
  less = omega (arith, ap length passes.queries, passes.less);
}
pop_event-Polled relay b (none, b') [] passes quiet out = elim passes.drained [
  | inl e ↦ cc
  | inr e ↦ record {
    owed = λ o. passes.owed o;
    connected = passes.connected;
    less = omega (arith, ap length passes.queries, ap length quiet, ap length out, ap length e);
  }
]
pop_event-Polled relay b (none, b') (ev ∷ evs) passes quiet out = record {
  owed = λ o. ground (arith, passes.owed o, ap (any_news relay) out);
  connected = passes.connected;
  less = omega (arith, ap length passes.queries, ap length quiet, ap length out, passes.less);
}

poll_queries-Polled :
    (relay : PeerId) (b : Behaviour) (queries : List PeerId)
    → contains relay b.connected_peers ≡ false
    → b.pending_query_answer ≡ queries
    → Polled relay b (poll_queries b queries)
unfolding poll_queries
poll_queries-Polled relay b [] unconnected e =
    let r = handle_in_event b b.in_events in
    pop_event-Polled relay b r r.1.pending_out_events
      (handle_in_event-Passes relay b.in_events b unconnected) e refl
poll_queries-Polled relay b (p ∷ rest) unconnected e =
    let counted : length b.pending_query_answer ≡ suc (length rest) = rw e refl in
    record { owed = λ o. o; connected = refl; less = omega (arith, counted) }

pub poll-Polled :
    (relay : PeerId) (b : Behaviour)
    → contains relay b.connected_peers ≡ false
    → Polled relay b (poll b)
unfolding poll
poll-Polled relay b unconnected =
    poll_queries-Polled relay b b.pending_query_answer unconnected refl
