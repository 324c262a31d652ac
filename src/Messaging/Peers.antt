-- ===== src/Messaging/Peers.antt =====
-- The connected peers of protocols/owlnest-messaging, over a whole run of the behaviour.
use owl_nest.Base.{
  ℕ, ◌≡◌, refl, ◌∙◌, ap, String, Bool, false, List, [], ◌∷◌, nat_key, ◌==◌, contains,
  contains-set_insert, contains-set_remove, ltb, ◌||◌, ◌&&◌, not, arith, ◌⊎◌,
}
use owl_nest.Messaging.{
  PeerId, Bytes, Message, Config, InEvent, ToBehaviourEvent, Behaviour, new, push_event,
  on_disconnect, on_handler_event, poll,
}
use owl_nest.Messaging.Requests.{poll-Handled}

-- What happens to a behaviour; `closed` is a connection that closes while so many others remain.
pub data Input : Type 0 where
  pushed : InEvent → Input
  reported : PeerId → ToBehaviourEvent → Input
  closed : PeerId → ℕ → Input
  polled : Input

-- Whether an input makes a peer connected or disconnected, if it was `before`.
abbrev pub after : PeerId → Input → Bool → Bool
after p (reported peer ToBehaviourEvent.outbound_negotiated) before = peer == p || before
after p (closed peer remaining) before = not (peer == p && ltb remaining 1) && before
after p _ before = before

abbrev pub after_all : PeerId → List Input → Bool → Bool
after_all p [] before = before
after_all p (i ∷ is) before = after_all p is (after p i before)

module _ (from_slice : Bytes → Message ⊎ String) where
  abbrev pub step : Behaviour → Input → Behaviour
  step b (pushed ev) = push_event b ev
  step b (reported peer ev) = on_handler_event from_slice b peer ev
  step b (closed peer remaining) = on_disconnect b peer remaining
  step b polled = (poll b).1

  unfoldable pub run : Behaviour → List Input → Behaviour
  run b [] = b
  run b (i ∷ is) = run (step b i) is

  step-after :
      (p : PeerId) (b : Behaviour) (i : Input)
      → contains p (step b i).connected_peers ≡ after p i (contains p b.connected_peers)
  unfolding push_event on_handler_event on_disconnect
  step-after p b (pushed ev) = refl
  step-after p b (reported peer ToBehaviourEvent.outbound_negotiated) =
      contains-set_insert peer p b.connected_peers
  step-after p b (reported peer (ToBehaviourEvent.incoming_message bytes)) = refl
  step-after p b (reported peer (ToBehaviourEvent.error e)) = refl
  step-after p b (reported peer ToBehaviourEvent.inbound_negotiated) = refl
  step-after p b (reported peer ToBehaviourEvent.unsupported) = refl
  step-after p b (closed peer remaining) =
      ground (arith, contains-set_remove peer p b.connected_peers)
  step-after p b polled = ap (contains p) (poll-Handled b).1

  run-after :
      (p : PeerId) (is : List Input) (b : Behaviour)
      → contains p (run b is).connected_peers ≡ after_all p is (contains p b.connected_peers)
  unfolding run
  run-after p [] b = refl
  run-after p (i ∷ is) b = run-after p is (step b i) ∙ ap (after_all p is) (step-after p b i)

  -- After any inputs to a new behaviour, a peer counts as connected exactly if an outbound stream to
  -- it was negotiated and its last connection has not closed since.
  pub run-new-after :
      (config : Config) (p : PeerId) (is : List Input)
      → contains p (run (new config) is).connected_peers ≡ after_all p is false
  unfolding new contains
  run-new-after config p is = run-after p is (new config)
