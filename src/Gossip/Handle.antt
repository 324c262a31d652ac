-- ===== src/Gossip/Handle.antt =====
-- The handle of gossipsub.rs: requests to the swarm, `map_in_event`, which the swarm's task runs on the
-- behaviour of libp2p, and what a method of the handle does with its answer. A method is two steps, its
-- request and what follows its answer, and other tasks run between them.
use owl_nest.Base.{
  ℕ, ◌≡◌, ◌≢◌, String, Bool, true, false, none, some, List, [], ◌∷◌, ◌++◌, ◌==◌, text_key,
  if◌then◌else◌,
}
use owl_nest.Gossip
use owl_nest.Gossip.{
  TopicHash, PeerId, MemTopicStore, MessageRecord, local, MemMessageStore, insert_message,
}

pub data Result (A E : Type 0) : Type 0 where
  ok : A → Result A E
  err : E → Result A E

-- `libp2p::gossipsub::Behaviour`. `topics` are those it is subscribed to.
pub record Gossipsub : Type 1 where
  pub Behaviour : Type 0
  pub Message : Type 0
  pub MessageId : Type 0
  pub PublishError : Type 0
  pub SubscriptionError : Type 0
  pub topics : Behaviour → TopicHash → Bool
  pub subscribe : TopicHash → Behaviour → Result Bool SubscriptionError × Behaviour
  pub unsubscribe : TopicHash → Behaviour → Bool × Behaviour
  pub publish : TopicHash → List ℕ → Behaviour → Result MessageId PublishError × Behaviour
  pub mesh_peers : TopicHash → Behaviour → List PeerId
  pub all_peers : Behaviour → List (PeerId × List TopicHash)
  pub blacklist_peer : PeerId → Behaviour → Behaviour
  pub remove_blacklisted_peer : PeerId → Behaviour → Behaviour
  -- Subscribing answers true if it worked, and else leaves the topics.
  pub subscribe_true :
      (t : TopicHash) (b b' : Behaviour)
      → subscribe t b ≡ (ok true, b')
      → (j : TopicHash) → topics b' j ≡ (if t == j then true else topics b j)
  pub subscribe_other :
      (t : TopicHash) (b b' : Behaviour) (r : Result Bool SubscriptionError)
      → subscribe t b ≡ (r, b')
      → r ≢ ok true
      → (j : TopicHash) → topics b' j ≡ topics b j
  -- Unsubscribing answers whether the topic was subscribed to.
  pub unsubscribe_answer : (t : TopicHash) (b : Behaviour) → (unsubscribe t b).0 ≡ topics b t
  pub unsubscribe_topics :
      (t : TopicHash) (b : Behaviour) (j : TopicHash)
      → topics (unsubscribe t b).1 j ≡ (if t == j then false else topics b j)
  pub publish_topics :
      (t : TopicHash) (m : List ℕ) (b : Behaviour) (j : TopicHash)
      → topics (publish t m b).1 j ≡ topics b j
  pub blacklist_topics :
      (p : PeerId) (b : Behaviour) (j : TopicHash) → topics (blacklist_peer p b) j ≡ topics b j
  pub unblacklist_topics :
      (p : PeerId) (b : Behaviour) (j : TopicHash)
      → topics (remove_blacklisted_peer p b) j ≡ topics b j

-- The callback of a request is its place in `answer`.
pub data InEvent : Type 0 where
  subscribe_topic : TopicHash → InEvent
  unsubscribe_topic : TopicHash → InEvent
  publish_message : TopicHash → List ℕ → InEvent
  mesh_peers_of_topic : TopicHash → InEvent
  all_peers_with_topic : InEvent
  ban_peer : PeerId → InEvent
  unban_peer : PeerId → InEvent

module _ (g : Gossipsub) where
  -- What is sent on the callback of a request; two requests have none.
  pub data Answer : Type 0 where
    subscribed : Result Bool g.SubscriptionError → Answer
    unsubscribed : Bool → Answer
    published : Result g.MessageId g.PublishError → Answer
    peers : List PeerId → Answer
    peers_with_topics : List (PeerId × List TopicHash) → Answer
    silent : Answer

  unfoldable pub map_in_event : InEvent → g.Behaviour → Answer × g.Behaviour
  map_in_event (InEvent.subscribe_topic topic_hash) behav =
      let (result, behav') = g.subscribe topic_hash behav in (subscribed result, behav')
  map_in_event (InEvent.unsubscribe_topic topic_hash) behav =
      let (result, behav') = g.unsubscribe topic_hash behav in (unsubscribed result, behav')
  map_in_event (mesh_peers_of_topic topic) behav = (peers (g.mesh_peers topic behav), behav)
  map_in_event all_peers_with_topic behav = (peers_with_topics (g.all_peers behav), behav)
  map_in_event (publish_message topic message) behav =
      let (result, behav') = g.publish topic message behav in (published result, behav')
  map_in_event (ban_peer peer) behav = (silent, g.blacklist_peer peer behav)
  map_in_event (unban_peer peer) behav = (silent, g.remove_blacklisted_peer peer behav)

  -- The stores of a handle.
  pub record Stores : Type 0 where
    pub topic_store : MemTopicStore
    pub message_store : MemMessageStore g.Message

  -- The methods of the handle; the hash of the caller's Hasher comes with a name.
  pub data Call : Type 0 where
    subscribe_name : (String → TopicHash) → String → Call
    subscribe_hash : TopicHash → Call
    unsubscribe_name : (String → TopicHash) → String → Call
    unsubscribe_hash : TopicHash → Call
    publish : TopicHash → List ℕ → Call
    mesh_peers : TopicHash → Call
    all_peers : Call
    ban : PeerId → Call
    unban : PeerId → Call

  -- What a method sends to the swarm.
  unfoldable pub request : Call → InEvent
  request (subscribe_name hash topic_string) = InEvent.subscribe_topic (hash topic_string)
  request (subscribe_hash topic_hash) = InEvent.subscribe_topic topic_hash
  request (unsubscribe_name hash topic_string) = InEvent.unsubscribe_topic (hash topic_string)
  request (unsubscribe_hash topic_hash) = InEvent.unsubscribe_topic topic_hash
  request (publish topic_hash message) = publish_message topic_hash message
  request (mesh_peers topic) = mesh_peers_of_topic topic
  request all_peers = all_peers_with_topic
  request (ban peer) = ban_peer peer
  request (unban peer) = unban_peer peer

  -- What a method does to the stores when its answer comes.
  abbrev pub if_new : Answer → (MemTopicStore → MemTopicStore) → Stores → Stores
  if_new (subscribed (ok true)) f s = record s { topic_store = f s.topic_store }
  if_new _ f s = s

  unfoldable pub subscribe_topic_hash : TopicHash → Answer → Stores → Stores
  subscribe_topic_hash topic_hash answer s =
      if_new answer (λ store. (Gossip.subscribe_topic topic_hash none store).1) s

  unfoldable pub unsubscribe_topic_hash : TopicHash → Answer → Stores → Stores
  unsubscribe_topic_hash topic_hash (unsubscribed true) s = record s {
    topic_store = (Gossip.unsubscribe_topic topic_hash s.topic_store).1;
  }
  unsubscribe_topic_hash topic_hash _ s = s

  unfoldable pub resume : Call → Answer → Stores → Stores
  unfolding subscribe_topic_hash unsubscribe_topic_hash
  resume (subscribe_name hash topic_string) answer s =
      if_new answer
        (λ store. (Gossip.subscribe_topic (hash topic_string) (some topic_string) store).1)
        (subscribe_topic_hash (hash topic_string) answer s)
  resume (subscribe_hash topic_hash) answer s = subscribe_topic_hash topic_hash answer s
  resume (unsubscribe_name hash topic_string) answer s =
      unsubscribe_topic_hash (hash topic_string) answer s
  resume (unsubscribe_hash topic_hash) answer s = unsubscribe_topic_hash topic_hash answer s
  resume (publish topic_hash message) (published (ok id)) s = record s {
    message_store = insert_message topic_hash (local message) s.message_store;
  }
  resume _ answer s = s

  -- A call between its steps, which the swarm has answered or not.
  pub data Task : Type 0 where
    sent : Call → Task
    answered : Call → Answer → Task

  -- The behaviour, the stores, and the calls that are under way, in the order in which they were made.
  pub record Node : Type 0 where
    pub behaviour : g.Behaviour
    pub stores : Stores
    pub tasks : List Task

  pub data AllAnswered : List Task → Type 0 where
    no_task : AllAnswered []
    one_more :
        (c : Call) (a : Answer) {ts : List Task} → AllAnswered ts → AllAnswered (answered c a ∷ ts)

  -- Calls are made at any time; the swarm answers the oldest request on the channel; the calls that
  -- were answered go on in any order.
  pub data Step (n : Node) : Node → Type 0 where
    begin : (c : Call) → Step n (record n { tasks = n.tasks ++ (sent c ∷ []) })
    answer :
        (before after : List Task) (c : Call)
        → AllAnswered before
        → n.tasks ≡ before ++ (sent c ∷ after)
        → Step n (record n {
          behaviour = (map_in_event (request c) n.behaviour).1;
          tasks = before ++ (answered c (map_in_event (request c) n.behaviour).0 ∷ after);
        })
    go_on :
        (before after : List Task) (c : Call) (a : Answer)
        → n.tasks ≡ before ++ (answered c a ∷ after)
        → Step n (record n { stores = resume c a n.stores; tasks = before ++ after })

  pub data Steps (n : Node) : Node → Type 0 where
    stay : Steps n n
    more : {m k : Node} → Steps n m → Step m k → Steps n k
