-- ===== src/Gossip/Subscriptions.antt =====
-- The topic store of a gossipsub handle beside the subscriptions of the swarm, over all interleavings
-- of the calls of its clients.
pub mod Serial
pub mod Race
use owl_nest.Base.{
  ◌≡◌, ◌≢◌, refl, sym, ap, ◌∙◌, String, Bool, true, false, not, ◌||◌, ◌&&◌, Option, none, some,
  List, [], ◌∷◌, ◌++◌, ◌==◌, text_key, Key, if◌then◌else◌, contains, set_insert, set_remove,
  contains-set_insert, contains-set_remove, arith, Bool-cases, inl, inr, ◌⊎◌, Option-cases,
}
use owl_nest.Base.Table.{get}
use owl_nest.Gossip
use owl_nest.Gossip.{TopicHash, MemTopicStore, insert_topic, insert_hash, default, MemMessageStore}
use owl_nest.Gossip.Handle
use owl_nest.Gossip.Handle.{
  Gossipsub, Result, ok, err, InEvent, Answer, subscribed, unsubscribed, published, map_in_event,
  Stores, Call, subscribe_name, subscribe_hash, unsubscribe_name, unsubscribe_hash, publish,
  mesh_peers, all_peers, ban, unban, request, if_new, subscribe_topic_hash, unsubscribe_topic_hash,
  resume, Task, sent, answered, Node, Step, begin, answer, go_on, Steps, stay, more, AllAnswered,
  no_task, one_more,
}

subscribed-insert_topic :
    (text : String) (topic : TopicHash) (store : MemTopicStore)
    → (insert_topic text topic store).1.subscribed ≡ store.subscribed
unfolding insert_topic
subscribed-insert_topic text topic store = elim (Option-cases (get store.vacant topic)) [
  | inl e ↦ elim (Option-cases (get store.populated topic)) [
    | inl f ↦ rw (e, f, insert_topic)
    | inr (entry, f) ↦ rw (e, f, insert_topic)
  ]
  | inr (list, e) ↦ rw (e, insert_topic)
]

subscribed-insert_hash :
    (topic : TopicHash) (store : MemTopicStore)
    → (insert_hash topic store).1.subscribed ≡ store.subscribed
unfolding insert_hash
subscribed-insert_hash topic store = ground arith

newly :
    (topic : TopicHash) (store : MemTopicStore) (t : TopicHash) (subs : List TopicHash)
    → store.subscribed ≡ subs
    → (let r : Bool × MemTopicStore =
          if contains topic store.subscribed
          then (false, store)
          else (true, record store { subscribed = set_insert topic store.subscribed }) in
        contains t r.1.subscribed)
      ≡ (topic == t || contains t subs)
newly topic store t subs e = elim (Bool-cases (contains topic store.subscribed)) [
  | inl c ↦ rw c (ground (arith, ap (contains t) e, text_key.same_iff topic t))
  | inr c ↦ rw c (contains-set_insert topic t store.subscribed ∙ rw e refl)
]

-- A store after a subscription.
contains-subscribe_topic :
    (topic : TopicHash) (text : Option String) (store : MemTopicStore) (t : TopicHash)
    → contains t (Gossip.subscribe_topic topic text store).1.subscribed
      ≡ (topic == t || contains t store.subscribed)
unfolding Gossip.subscribe_topic
contains-subscribe_topic topic none store t =
    newly topic _ t store.subscribed (subscribed-insert_hash topic store)
contains-subscribe_topic topic (some text) store t =
    newly topic _ t store.subscribed (subscribed-insert_topic text topic store)

module _ (g : Gossipsub) where
  -- Whether a call is a subscription to a topic or its end.
  abbrev pub concerns : TopicHash → Call g → Bool
  concerns t (subscribe_name hash text) = hash text == t
  concerns t (subscribe_hash topic) = topic == t
  concerns t (unsubscribe_name hash text) = hash text == t
  concerns t (unsubscribe_hash topic) = topic == t
  concerns t _ = false

  abbrev pub call_of : Task g → Call g
  call_of (sent c) = c
  call_of (answered c a) = c

  -- The tasks under way that concern a topic.
  unfoldable pub of_topic : TopicHash → List (Task g) → List (Task g)
  of_topic t [] = []
  of_topic t (x ∷ xs) =
      let rest = of_topic t xs in if concerns t (call_of x) then x ∷ rest else rest

  -- What a call that goes on does to whether the store has a topic among its subscriptions.
  abbrev pub effect : TopicHash → Call g → Answer g → Bool → Bool
  effect t (subscribe_name hash text) (subscribed (ok true)) b = hash text == t || b
  effect t (subscribe_hash topic) (subscribed (ok true)) b = topic == t || b
  effect t (unsubscribe_name hash text) (unsubscribed true) b = not (hash text == t) && b
  effect t (unsubscribe_hash topic) (unsubscribed true) b = not (topic == t) && b
  effect t _ _ b = b

  abbrev pub in_store : TopicHash → Stores g → Bool
  in_store t s = contains t s.topic_store.subscribed

  pub in_store-resume :
      (t : TopicHash) (c : Call g) (a : Answer g) (s : Stores g)
      → in_store t (resume g c a s) ≡ effect t c a (in_store t s)
  unfolding resume subscribe_topic_hash unsubscribe_topic_hash Gossip.unsubscribe_topic
  in_store-resume t (subscribe_name hash text) (subscribed (ok true)) s = ground (
    arith,
    contains-subscribe_topic (hash text) (some text)
        (Gossip.subscribe_topic (hash text) none s.topic_store).1 t,
    contains-subscribe_topic (hash text) none s.topic_store t,
  )
  in_store-resume t (subscribe_hash topic) (subscribed (ok true)) s =
      contains-subscribe_topic topic none s.topic_store t
  in_store-resume t (unsubscribe_name hash text) (unsubscribed true) s =
      contains-set_remove (hash text) t s.topic_store.subscribed
  in_store-resume t (unsubscribe_hash topic) (unsubscribed true) s =
      contains-set_remove topic t s.topic_store.subscribed
  in_store-resume t (publish topic message) (published (ok id)) s = refl
  in_store-resume t _ _ s = refl

  subscribe_effect :
      (t topic : TopicHash) (b b' : g.Behaviour) (r : Result Bool g.SubscriptionError)
      → g.subscribe topic b ≡ (r, b')
      → g.topics b' t ≡ effect t (subscribe_hash topic) (subscribed r) (g.topics b t)
  subscribe_effect t topic b b' (ok true) e = ground (arith, g.subscribe_true topic b b' e t)
  subscribe_effect t topic b b' (ok false) e =
      g.subscribe_other topic b b' (ok false) e (λ h. cc h) t
  subscribe_effect t topic b b' (err x) e = g.subscribe_other topic b b' (err x) e (λ h. cc h) t

  unsubscribe_effect :
      (t topic : TopicHash) (b : g.Behaviour) (r : Bool)
      → (g.unsubscribe topic b).0 ≡ r
      → g.topics (g.unsubscribe topic b).1 t
        ≡ effect t (unsubscribe_hash topic) (unsubscribed r) (g.topics b t)
  unsubscribe_effect t topic b true e = ground (arith, g.unsubscribe_topics topic b t)
  unsubscribe_effect t topic b false e =
      g.unsubscribe_topics topic b t ∙ elim (Bool-cases (topic == t)) [
        | inl f ↦ rw f (
            sym (
              ap (g.topics b) (sym ((text_key.same_iff topic t).0 f))
              ∙ sym (g.unsubscribe_answer topic b)
              ∙ e))
        | inr f ↦ rw f
      ]

  -- What the swarm's answer to a call does to its own subscriptions.
  pub topics-map_in_event :
      (t : TopicHash) (c : Call g) (b : g.Behaviour)
      → g.topics (map_in_event g (request g c) b).1 t
        ≡ effect t c (map_in_event g (request g c) b).0 (g.topics b t)
  unfolding map_in_event request
  topics-map_in_event t (subscribe_name hash text) b = subscribe_effect t (hash text) b _ _ refl
  topics-map_in_event t (subscribe_hash topic) b = subscribe_effect t topic b _ _ refl
  topics-map_in_event t (unsubscribe_name hash text) b = unsubscribe_effect t (hash text) b _ refl
  topics-map_in_event t (unsubscribe_hash topic) b = unsubscribe_effect t topic b _ refl
  topics-map_in_event t (publish topic message) b = g.publish_topics topic message b t
  topics-map_in_event t (mesh_peers topic) b = refl
  topics-map_in_event t all_peers b = refl
  topics-map_in_event t (ban peer) b = g.blacklist_topics peer b t
  topics-map_in_event t (unban peer) b = g.unblacklist_topics peer b t

  -- A call of another topic does not change a topic.
  pub effect_elsewhere :
      (t : TopicHash) (c : Call g) (a : Answer g) (b : Bool)
      → concerns t c ≡ false
      → effect t c a b ≡ b
  effect_elsewhere t (subscribe_name hash text) (subscribed (ok true)) b e = rw e
  effect_elsewhere t (subscribe_hash topic) (subscribed (ok true)) b e = rw e
  effect_elsewhere t (unsubscribe_name hash text) (unsubscribed true) b e = rw e
  effect_elsewhere t (unsubscribe_hash topic) (unsubscribed true) b e = rw e
  effect_elsewhere t _ _ b e = refl
