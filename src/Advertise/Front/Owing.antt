-- ===== src/Advertise/Front/Owing.antt =====
-- What one input does about news that the behaviour of protocols/owlnest-advertise owes to a query of
-- owlnest/src/net/p2p/protocols/advertise.rs.
use owl_nest.Base.{
  ℕ, ◌+◌, ◌≤◌, ◌≡◌, refl, ◌∙◌, ap, Bool, true, false, ◌||◌, Option, none, List, [], ◌∷◌, length,
  length-append, contains, contains-set_insert, contains-set_remove, ◌==◌, nat_key, ltb, leb, arith,
  Bool-cases, inl, inr,
}
use owl_nest.Advertise.{
  PeerId, OutEvent, InEvent, ToBehaviour, inbound_negotiated, outbound_negotiated, incoming_query,
  incoming_advertise_req, Behaviour, SwarmEvent, push_event, on_connection_handler_event,
  on_swarm_event, emit, Input, pushed, reported, closed, polled, step,
}
use owl_nest.Advertise.Front.News.{
  any_news, any_query, is_owed, any_news-append, any_query-append, tells, work, poll-Polled,
}

-- What an input adds to the work, in polls.
abbrev pub burden : Input → ℕ
burden (pushed ev) = 2
burden (reported peer incoming_query) = 1
burden (reported peer (ToBehaviour.query_answered list)) = 1
burden (reported peer (ToBehaviour.error e)) = 1
burden _ = 0

-- An outbound stream to the peer is negotiated, which makes it connected.
abbrev pub connects : PeerId → Input → Bool
connects relay (reported peer outbound_negotiated) = peer == relay
connects relay _ = false

-- An input to a behaviour that owes news of the peer and is not connected to it.
pub record Owing (relay : PeerId) (b : Behaviour) (i : Input) (r : Option SwarmEvent × Behaviour)
    : Type 0 where
  pub owed : (tells relay r.0 || is_owed relay r.1) ≡ true
  pub unconnected : contains relay r.1.connected_peers ≡ false
  pub less : work r.1 ≤ work b + burden i

emit-Owing :
    (relay : PeerId) (b : Behaviour) (peer : PeerId) (ev : ToBehaviour) (out : OutEvent)
    → burden (reported peer ev) ≡ 1
    → contains relay b.connected_peers ≡ false
    → is_owed relay b ≡ true
    → Owing relay b (reported peer ev) (none, emit b out)
emit-Owing relay b peer ev out one unconnected owed = record {
  owed = ground (arith, any_news-append relay b.pending_out_events (out ∷ []));
  unconnected = unconnected;
  less = omega (arith, one, length-append b.pending_out_events (out ∷ []));
}

-- A report to the behaviour only adds to what it has to publish.
reported-Owing :
    (relay : PeerId) (b : Behaviour) (peer : PeerId) (ev : ToBehaviour)
    → contains relay b.connected_peers ≡ false
    → connects relay (reported peer ev) ≡ false
    → is_owed relay b ≡ true
    → Owing relay b (reported peer ev) (none, on_connection_handler_event b peer ev)
unfolding on_connection_handler_event
reported-Owing relay b peer incoming_query unconnected apart owed = record {
  owed = owed;
  unconnected = unconnected;
  less = omega (arith, length-append b.pending_query_answer (peer ∷ []));
}
reported-Owing relay b peer (incoming_advertise_req true) unconnected apart owed =
    elim (Bool-cases (leb (length b.advertised_peers) b.config.max_advertise_capacity)) [
      | inl e ↦
          rw (e, on_connection_handler_event)
            (record { owed = owed; unconnected = unconnected; less = omega arith })
      | inr e ↦
          rw (e, on_connection_handler_event)
            (record { owed = owed; unconnected = unconnected; less = omega arith })
    ]
reported-Owing relay b peer (incoming_advertise_req false) unconnected apart owed = record {
  owed = owed;
  unconnected = unconnected;
  less = omega arith;
}
reported-Owing relay b peer (ToBehaviour.query_answered list) unconnected apart owed =
    emit-Owing relay b peer _ (OutEvent.query_answered peer list) refl unconnected owed
reported-Owing relay b peer (ToBehaviour.error e) unconnected apart owed =
    emit-Owing relay b peer _ (OutEvent.error e) refl unconnected owed
reported-Owing relay b peer inbound_negotiated unconnected apart owed = record {
  owed = owed;
  unconnected = unconnected;
  less = omega arith;
}
reported-Owing relay b peer outbound_negotiated unconnected apart owed = record {
  owed = owed;
  unconnected = contains-set_insert peer relay b.connected_peers ∙ ground arith;
  less = omega arith;
}

closed-Owing :
    (relay : PeerId) (b : Behaviour) (peer : PeerId) (remaining : ℕ)
    → contains relay b.connected_peers ≡ false
    → is_owed relay b ≡ true
    → Owing relay b (closed peer remaining) (none, on_swarm_event b peer remaining)
unfolding on_swarm_event
closed-Owing relay b peer remaining unconnected owed = elim (Bool-cases (ltb remaining 1)) [
  | inl e ↦
      rw (e, on_swarm_event)
        (record {
          owed = owed;
          unconnected = contains-set_remove peer relay b.connected_peers ∙ ground arith;
          less = omega arith;
        })
  | inr e ↦
      rw (e, on_swarm_event) (record { owed = owed; unconnected = unconnected; less = omega arith })
]

pub step-Owing :
    (relay : PeerId) (b : Behaviour) (i : Input)
    → contains relay b.connected_peers ≡ false
    → connects relay i ≡ false
    → is_owed relay b ≡ true
    → Owing relay b i (step b i)
unfolding push_event
step-Owing relay b (pushed ev) unconnected apart owed = record {
  owed = ground (arith, any_query-append relay b.in_events (ev ∷ []));
  unconnected = unconnected;
  less = omega (arith, length-append b.in_events (ev ∷ []));
}
step-Owing relay b (reported peer ev) unconnected apart owed =
    reported-Owing relay b peer ev unconnected apart owed
step-Owing relay b (closed peer remaining) unconnected apart owed =
    closed-Owing relay b peer remaining unconnected owed
step-Owing relay b polled unconnected apart owed =
    let one = poll-Polled relay b unconnected in
    record {
      owed = one.owed owed;
      unconnected = ap (contains relay) one.connected ∙ unconnected;
      less = omega (arith, one.less);
    }

-- A behaviour that owes something has work to do.
pub owed_work : (relay : PeerId) (b : Behaviour) → is_owed relay b ≡ true → 1 ≤ work b
owed_work relay b owed = by_queues b.pending_out_events b.in_events refl refl
  where
    by_queues :
        (outs : List OutEvent) (ins : List InEvent)
        → b.pending_out_events ≡ outs
        → b.in_events ≡ ins
        → 1 ≤ work b
    by_queues [] [] e f = ground (arith, owed, ap (any_news relay) e, ap (any_query relay) f)
    by_queues (x ∷ outs) ins e f = omega (arith, ap length e)
    by_queues [] (x ∷ ins) e f = omega (arith, ap length f)
