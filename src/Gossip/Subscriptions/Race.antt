-- ===== src/Gossip/Subscriptions/Race.antt =====
-- A subscription to a topic through a gossipsub handle and its end that overlap.
use owl_nest.Base.{◌≡◌, refl, ap, ◌∙◌, Bool, true, false, ◌||◌, [], ◌∷◌, ◌++◌, ◌==◌, text_key}
use owl_nest.Gossip.{TopicHash}
use owl_nest.Gossip.Handle.{
  Gossipsub, Result, ok, subscribed, map_in_event, subscribe_hash, unsubscribe_hash, request,
  resume, sent, answered, Node, begin, answer, go_on, Steps, stay, more, no_task, one_more,
}
use owl_nest.Gossip.Subscriptions.{effect, in_store, in_store-resume}

module _ (g : Gossipsub) (t : TopicHash) where
  -- The node after both calls, the end of the subscription going on first.
  abbrev pub overlapped : Node g → Node g
  overlapped n =
      let (a, b) = map_in_event g (request g (subscribe_hash t)) n.behaviour in
      let (a', b') = map_in_event g (request g (unsubscribe_hash t)) b in
      record {
        behaviour = b';
        stores = resume g (subscribe_hash t) a (resume g (unsubscribe_hash t) a' n.stores);
        tasks = [];
      }

  overlap-Steps : (n : Node g) → n.tasks ≡ [] → Steps g n (overlapped n)
  overlap-Steps n e =
      let (a, b) = map_in_event g (request g (subscribe_hash t)) n.behaviour in
      more
        (more
          (more
            (more
              (more (more stay (begin (subscribe_hash t))) (
                answer [] [] (subscribe_hash t) no_task
                  (ap (λ xs. xs ++ (sent (subscribe_hash t) ∷ [])) e)))
              (begin (unsubscribe_hash t)))
            (answer (answered (subscribe_hash t) a ∷ []) [] (unsubscribe_hash t)
              (one_more (subscribe_hash t) a no_task) refl))
          (go_on (answered (subscribe_hash t) a ∷ []) [] (unsubscribe_hash t) _ refl))
        (go_on [] [] (subscribe_hash t) a refl)

  pub overlap_disagrees :
      (n : Node g)
      → n.tasks ≡ []
      → (g.subscribe t n.behaviour).0 ≡ ok true
      → (m : Node g) × Steps g n m
        × (m.tasks ≡ [])
        × (g.topics m.behaviour t ≡ false)
        × (in_store g t m.stores ≡ true)
  unfolding map_in_event request
  overlap_disagrees n e accepted = (
    overlapped n,
    overlap-Steps n e,
    refl,
    g.unsubscribe_topics t (g.subscribe t n.behaviour).1 t ∙ rw same refl,
    in_store-resume g t (subscribe_hash t) _ _ ∙ entered _ _ accepted,
  )
    where
      same : t == t ≡ true
      same = (text_key.same_iff t t).1 refl

      entered :
          (r : Result Bool g.SubscriptionError) (q : Bool)
          → r ≡ ok true
          → effect g t (subscribe_hash t) (subscribed r) q ≡ true
      entered r q f =
          ap (λ r. effect g t (subscribe_hash t) (subscribed r) q) f ∙ ap (λ b. b || q) same
