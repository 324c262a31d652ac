-- ===== src/Advertise/Front/Unconnected.antt =====
-- `query_advertised_peer` of owlnest/src/net/p2p/protocols/advertise.rs for a peer that the behaviour
-- is not connected to, whatever else goes on.
use owl_nest.Base.{
  ℕ, ◌+◌, ◌≤◌, ◌≡◌, refl, Bool, true, false, ◌||◌, List, [], ◌∷◌, ◌++◌, length-append, contains,
  nat_key, nat_beq_iff, arith, Bool-cases, inl, inr,
}
use owl_nest.Advertise.{PeerId, InEvent, Behaviour, push_event, Input, pushed, polled, step}
use owl_nest.Advertise.Front.{
  Occurrence, happens, elsewhere, missed, published, state_after, listen_query,
  query_advertised_peer,
}
use owl_nest.Advertise.Front.News.{is_owed, any_query-append, tells, work, poll-Polled}
use owl_nest.Advertise.Front.Owing.{burden, connects, step-Owing, owed_work}
use owl_nest.Advertise.Front.Answers.{Answered, Answered-later, heard-Answered, tells-Answered}

-- The work that comes in, and the polls.
abbrev pub incoming : List Occurrence → ℕ
incoming [] = 0
incoming (happens i ∷ os) = burden i + incoming os
incoming (_ ∷ os) = incoming os

abbrev pub count_polls : List Occurrence → ℕ
count_polls [] = 0
count_polls (happens polled ∷ os) = 1 + count_polls os
count_polls (_ ∷ os) = count_polls os

abbrev pub any_connects : PeerId → List Occurrence → Bool
any_connects relay [] = false
any_connects relay (happens i ∷ os) = connects relay i || any_connects relay os
any_connects relay (_ ∷ os) = any_connects relay os

abbrev pub any_missed : List Occurrence → Bool
any_missed [] = false
any_missed (missed ∷ os) = true
any_missed (_ ∷ os) = any_missed os

polled_work :
    (relay : PeerId) (b : Behaviour) (i : Input) (os : List Occurrence)
    → contains relay b.connected_peers ≡ false
    → connects relay i ≡ false
    → is_owed relay b ≡ true
    → work b + incoming (happens i ∷ os) ≤ count_polls (happens i ∷ os)
    → work (step b i).1 + incoming os ≤ count_polls os
polled_work relay b polled os unconnected apart owed enough =
    omega (arith, (poll-Polled relay b unconnected).less, owed_work relay b owed)
polled_work relay b i os unconnected apart owed enough =
    omega (arith, (step-Owing relay b i unconnected apart owed).less)

-- News that is owed comes out within the polls that the work takes.
owed-Answered :
    (relay : PeerId) (os : List Occurrence) (b : Behaviour)
    → contains relay b.connected_peers ≡ false
    → any_connects relay os ≡ false
    → is_owed relay b ≡ true
    → work b + incoming os ≤ count_polls os
    → Answered relay (any_missed os) (published b os) (listen_query relay (published b os))
unfolding listen_query
owed-Answered relay [] b unconnected apart owed enough =
    absurd (omega (arith, owed_work relay b owed))
owed-Answered relay (elsewhere ∷ os) b unconnected apart owed enough =
    Answered-later relay (any_missed os) _ (published b os) (listen_query relay (published b os))
      (owed-Answered relay os b unconnected apart owed enough)
owed-Answered relay (missed ∷ os) b unconnected apart owed enough = refl
owed-Answered relay (happens i ∷ os) b unconnected apart owed enough =
    let still : connects relay i ≡ false = ground arith in
    let one = step-Owing relay b i unconnected still owed in
    let later = published (step b i).1 os in
    elim (Bool-cases (tells relay (step b i).0)) [
      | inl told ↦ tells-Answered relay (any_missed os) (step b i).0 later told
      | inr untold ↦ heard-Answered relay (any_missed os) (step b i).0 later (
          owed-Answered relay os (step b i).1 one.unconnected (ground arith)
            (ground (arith, one.owed)) (polled_work relay b i os unconnected still owed enough))
    ]

-- A query of a peer that is not connected when the request gets to the behaviour, and to which no
-- stream is negotiated from then on, comes back before its timeout, whatever happened before and
-- whatever else happens: other requests, reports of handlers, connections that close, events of other
-- behaviours. It comes back with the list of an answer of that peer, or the error that the peer is not
-- providing, which the listener has got, and panics only if the listener has missed events. The polls until the timeout have to be as many as the work of
-- the behaviour when it gets the request, with what comes in afterwards, where requests count twice.
pub query_advertised_peer-unconnected :
    (before after : List Occurrence) (b : Behaviour) (relay : PeerId)
    → contains relay (state_after b before).connected_peers ≡ false
    → any_connects relay after ≡ false
    → work (state_after b before) + 2 + incoming after ≤ count_polls after
    → Answered relay
        (any_missed (before ++ after))
        (published b (before ++ happens (pushed (InEvent.query_advertised_peer relay)) ∷ after))
        (query_advertised_peer before after b relay)
unfolding query_advertised_peer listen_query push_event
query_advertised_peer-unconnected [] after b relay unconnected apart enough =
    let ask = InEvent.query_advertised_peer relay in
    owed-Answered relay after (push_event b ask) unconnected apart
      (ground (arith, any_query-append relay b.in_events (ask ∷ []), nat_beq_iff relay relay))
      (omega (arith, length-append b.in_events (ask ∷ [])))
query_advertised_peer-unconnected (elsewhere ∷ before) after b relay unconnected apart enough =
    Answered-later relay (any_missed (before ++ after)) _ _
      (query_advertised_peer before after b relay)
      (query_advertised_peer-unconnected before after b relay unconnected apart enough)
query_advertised_peer-unconnected (missed ∷ before) after b relay unconnected apart enough = refl
query_advertised_peer-unconnected (happens i ∷ before) after b relay unconnected apart enough =
    heard-Answered relay (any_missed (before ++ after)) (step b i).0 _
      (query_advertised_peer-unconnected before after (step b i).1 relay unconnected apart enough)
