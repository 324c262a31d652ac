-- ===== src/Advertise/Front/Answers.antt =====
-- How `query_advertised_peer` of owlnest/src/net/p2p/protocols/advertise.rs may come back, and what an
-- event of the swarm is to its listener.
use owl_nest.Base.{Result, ok, err}
use owl_nest.Base.{
  ◌≡◌, ap, Bool, true, Option, none, some, List, [], ◌∷◌, ◌++◌, ◌==◌, nat_key, nat_beq_iff, arith,
  Bool-cases, inl, inr,
}
use owl_nest.Blob.Types.{Run, done, panicked, stuck}
use owl_nest.Advertise.{
  PeerId, Error, not_providing, OutEvent, SwarmEvent, notify_handler, generate_event,
  query_answered,
}
use owl_nest.Advertise.Front.{Received, advertise, heard, listen_query}
use owl_nest.Advertise.Front.News.{tells}

-- The listener has got the event.
abbrev pub Came : OutEvent → List Received → Type 0
Came ev received =
    (before : List Received) × (after : List Received) × (received ≡ before ++ advertise ev ∷ after)

-- The call comes back with the list of an answer of the peer, or with the error that the peer is not
-- providing, which has come; it panics only if the listener has missed events.
abbrev pub Answered :
    PeerId → Bool → List Received → Run (Result Error (Option (List PeerId))) → Type 0
Answered relay lost received (done (ok list)) = Came (query_answered relay list) received
Answered relay lost received (done (err (not_providing peer))) =
    (peer ≡ relay) × Came (OutEvent.error (not_providing relay)) received
Answered relay lost received (done (err _)) = ⊥
Answered relay lost received panicked = lost ≡ true
Answered relay lost received stuck = ⊥

Came-later : (ev : OutEvent) (x : Received) (xs : List Received) → Came ev xs → Came ev (x ∷ xs)
Came-later ev x xs (before, after, e) = (x ∷ before, after, ap (◌∷◌ x) e)

pub Answered-later :
    (relay : PeerId) (lost : Bool) (x : Received) (xs : List Received)
    (r : Run (Result Error (Option (List PeerId))))
    → Answered relay lost xs r
    → Answered relay lost (x ∷ xs) r
Answered-later relay lost x xs (done (ok list)) came = Came-later _ x xs came
Answered-later relay lost x xs (done (err (not_providing p))) (e, came) =
    (e, Came-later _ x xs came)
Answered-later relay lost x xs (done (err _)) never = absurd never
Answered-later relay lost x xs panicked e = e
Answered-later relay lost x xs stuck never = absurd never

module _ (relay : PeerId) (lost : Bool) where
  answer_of :
      (from : PeerId) (list : Option (List PeerId)) (later : List Received)
      → (from == relay) ≡ true
      → Came (query_answered relay list) (advertise (query_answered from list) ∷ later)
  answer_of from list later e =
      let same : from ≡ relay = (nat_beq_iff from relay).0 e in
      ([], later, ap (λ p. advertise (query_answered p list) ∷ later) same)

  refusal_of :
      (p : PeerId) (later : List Received)
      → (p == relay) ≡ true
      → (p ≡ relay)
        × Came
            (OutEvent.error (not_providing relay))
            (advertise (OutEvent.error (not_providing p)) ∷ later)
  refusal_of p later e =
      let same : p ≡ relay = (nat_beq_iff p relay).0 e in
      (same, ([], later, ap (λ q. advertise (OutEvent.error (not_providing q)) ∷ later) same))

  -- An event is what the call waits for, or the call goes on to listen.
  pub heard-Answered :
      (event : Option SwarmEvent) (later : List Received)
      → Answered relay lost later (listen_query relay later)
      → Answered relay lost (heard event later) (listen_query relay (heard event later))
  unfolding listen_query
  heard-Answered none later go = go
  heard-Answered (some (notify_handler p ev)) later go = go
  heard-Answered (some (generate_event (query_answered from list))) later go =
      elim (Bool-cases (from == relay)) [
        | inl e ↦ rw (e, listen_query) (answer_of from list later e)
        | inr e ↦ rw (e, listen_query) (Answered-later relay lost _ later _ go)
      ]
  heard-Answered (some (generate_event (OutEvent.error (not_providing p)))) later go =
      elim (Bool-cases (p == relay)) [
        | inl e ↦ rw (e, listen_query) (refusal_of p later e)
        | inr e ↦ rw (e, listen_query) (Answered-later relay lost _ later _ go)
      ]
  heard-Answered (some (generate_event (OutEvent.error _))) later go =
      Answered-later relay lost _ later (listen_query relay later) go
  heard-Answered (some (generate_event _)) later go =
      Answered-later relay lost _ later (listen_query relay later) go

  pub tells-Answered :
      (event : Option SwarmEvent) (later : List Received)
      → tells relay event ≡ true
      → Answered relay lost (heard event later) (listen_query relay (heard event later))
  unfolding listen_query
  tells-Answered (some (generate_event (query_answered from list))) later told =
      rw (told, listen_query) (answer_of from list later told)
  tells-Answered (some (generate_event (OutEvent.error (not_providing p)))) later told =
      rw (told, listen_query) (refusal_of p later told)
  tells-Answered (some (generate_event (OutEvent.error _))) later told = ground arith
  tells-Answered (some (generate_event _)) later told = ground arith
  tells-Answered none later told = ground arith
  tells-Answered (some (notify_handler p ev)) later told = ground arith
