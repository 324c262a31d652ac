-- ===== src/Advertise/Capacity.antt =====
-- How many peers a provider of protocols/owlnest-advertise advertises.
use owl_nest.Base.{
  ℕ, ◌≡◌, refl, ◌∙◌, true, false, List, [], ◌∷◌, nat_key, length, contains, set_insert, ltb, leb,
  if◌then◌else◌, arith, ◌≤◌, ◌+◌, Bool-cases, leb_iff, inl, inr,
}
use owl_nest.Advertise.{
  PeerId, Config, ToBehaviour, Behaviour, new, push_event, on_connection_handler_event,
  on_swarm_event, Input, pushed, reported, closed, polled, step, run,
}
use owl_nest.Advertise.Requests.{length-set_remove, poll-cases}

length-set_insert :
    (p : PeerId) (xs : List PeerId)
    → length (set_insert p xs) ≡ (if contains p xs then length xs else length xs + 1)
unfolding set_insert
length-set_insert p xs = ground arith

-- The bound that holds, one more than the capacity that is set.
abbrev pub Bounded : Config → Behaviour → Type 0
Bounded config b =
    (b.config ≡ config) × (length b.advertised_peers ≤ config.max_advertise_capacity + 1)

within :
    (peer : PeerId) (xs : List PeerId) {n : ℕ} → length xs ≤ n → length (set_insert peer xs) ≤ n + 1
within peer xs h = ground (arith, length-set_insert peer xs)

step-Bounded :
    (config : Config) (b : Behaviour) (i : Input) → Bounded config b → Bounded config (step b i).1
unfolding push_event on_connection_handler_event on_swarm_event
step-Bounded config b (pushed ev) h = h
step-Bounded config b (reported peer ToBehaviour.incoming_query) h = h
step-Bounded config b (reported peer (ToBehaviour.incoming_advertise_req true)) (e, n) =
    elim (Bool-cases (leb (length b.advertised_peers) b.config.max_advertise_capacity)) [
      | inl f ↦
          rw (f, on_connection_handler_event)
            (e, within peer b.advertised_peers (rw⁻¹ e ((leb_iff _ _).0 f)))
      | inr f ↦ rw (f, on_connection_handler_event) (e, n)
    ]
step-Bounded config b (reported peer (ToBehaviour.incoming_advertise_req false)) (e, n) =
    (e, omega (arith, length-set_remove peer b.advertised_peers))
step-Bounded config b (reported peer (ToBehaviour.query_answered result)) h = h
step-Bounded config b (reported peer (ToBehaviour.error e)) h = h
step-Bounded config b (reported peer ToBehaviour.inbound_negotiated) h = h
step-Bounded config b (reported peer ToBehaviour.outbound_negotiated) h = h
step-Bounded config b (closed peer remaining) (e, n) = elim (Bool-cases (ltb remaining 1)) [
  | inl f ↦ rw (f, on_swarm_event) (e, omega (arith, length-set_remove peer b.advertised_peers))
  | inr f ↦ rw (f, on_swarm_event) (e, n)
]
step-Bounded config b polled (e, n) =
    let (queries, same, fewer) = poll-cases b in (same ∙ e, omega arith)

run-Bounded :
    (config : Config) (b : Behaviour) (is : List Input)
    → Bounded config b
    → Bounded config (run b is).1
unfolding run
run-Bounded config b [] h = h
run-Bounded config b (i ∷ is) h = run-Bounded config (step b i).1 is (step-Bounded config b i h)

-- After any inputs to a new behaviour the peers that it advertises are at most one more than the
-- capacity that its configuration sets.
pub run-new-Bounded : (config : Config) (is : List Input) → Bounded config (run (new config) is).1
unfolding new
run-new-Bounded config is = run-Bounded config (new config) is (refl, omega arith)

-- That one more is taken: a behaviour that advertises as many peers as its capacity still takes the
-- next peer that asks for it.
pub over_capacity :
    (b : Behaviour) (peer : PeerId)
    → length b.advertised_peers ≡ b.config.max_advertise_capacity
    → contains peer b.advertised_peers ≡ false
    → length
        (on_connection_handler_event b peer
          (ToBehaviour.incoming_advertise_req true)).advertised_peers
      ≡ b.config.max_advertise_capacity + 1
unfolding on_connection_handler_event
over_capacity b peer e f =
    rw
      (
        (leb_iff (length b.advertised_peers) b.config.max_advertise_capacity).1 (omega arith),
        on_connection_handler_event,
      )
      (rw (length-set_insert peer b.advertised_peers, f) (omega arith))
