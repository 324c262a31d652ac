-- ===== src/Gossip.antt =====
-- The in-memory stores of owlnest/src/net/p2p/protocols/gossipsub.rs: `MemTopicStore`, the topics that
-- are known, and `MemMessageStore`, the messages of each topic. A TopicHash is the text that it wraps,
-- and a PeerId a number. An operation gives its answer and the store afterwards.
pub mod TopicSpec
pub mod Handle
pub mod Subscriptions
pub mod Examples
use owl_nest.Base.{
  ℕ, String, Bool, true, false, not, Option, none, some, List, [], ◌∷◌, ◌++◌, map, text_key,
  nat_key, contains, set_insert, set_remove, is_some, ◌||◌, if◌then◌else◌,
}
use owl_nest.Base.Table.{Table, empty, get, insert, remove, bindings, keys_where}

abbrev pub TopicHash : Type 0
TopicHash = String

abbrev pub PeerId : Type 0
PeerId = ℕ

-- The default store is empty.
pub record MemTopicStore : Type 0 where
  pub populated : Table TopicHash (String × List PeerId)
  pub vacant : Table TopicHash (List PeerId)
  pub subscribed : List TopicHash

abbrev pub default : MemTopicStore
default = record { populated = empty; vacant = empty; subscribed = [] }

unfoldable pub insert_topic : String → TopicHash → MemTopicStore → Bool × MemTopicStore
insert_topic topic_string topic_hash store = elim (get store.vacant topic_hash) [
  | some list ↦ (
    false,
    record store {
      populated = insert store.populated topic_hash (topic_string, list);
      vacant = remove store.vacant topic_hash;
    },
  )
  | none ↦ elim (get store.populated topic_hash) [
    | none ↦
        (true, record store { populated = insert store.populated topic_hash (topic_string, []) })
    | some entry ↦ (false, store)
  ]
]

unfoldable pub insert_hash : TopicHash → MemTopicStore → Bool × MemTopicStore
insert_hash topic_hash store =
    if is_some (get store.vacant topic_hash) || is_some (get store.populated topic_hash)
    then (false, store)
    else (true, record store { vacant = insert store.vacant topic_hash [] })

unfoldable pub try_map : TopicHash → MemTopicStore → Option String
try_map topic_hash store = elim (get store.populated topic_hash) [
  | some (topic_string, list) ↦ some topic_string
  | none ↦ none
]

unfoldable pub readable_topics : MemTopicStore → List (TopicHash × String)
readable_topics store = map (λ entry. (entry.0, entry.1.0)) (bindings store.populated)

unfoldable pub hash_topics : MemTopicStore → List TopicHash
hash_topics store = keys_where (λ topic_hash list. true) store.vacant

unfoldable pub participants : TopicHash → MemTopicStore → Option (List PeerId)
participants topic_hash store = elim (get store.populated topic_hash) [
  | some (topic_string, list) ↦ some list
  | none ↦ get store.vacant topic_hash
]

-- `join_topic` once the topic is known; `none` is its `unreachable!`.
unfoldable pub join_known : PeerId → TopicHash → MemTopicStore → Option (Bool × MemTopicStore)
join_known peer topic_hash store = elim (get store.vacant topic_hash) [
  | some list ↦ some (
    not (contains peer list),
    record store { vacant = insert store.vacant topic_hash (set_insert peer list) },
  )
  | none ↦ elim (get store.populated topic_hash) [
    | some (topic_string, list) ↦ some (
      not (contains peer list),
      record store {
        populated = insert store.populated topic_hash (topic_string, set_insert peer list);
      },
    )
    | none ↦ none
  ]
]

unfoldable pub join_topic : PeerId → TopicHash → MemTopicStore → Option (Bool × MemTopicStore)
unfolding insert_hash join_known
join_topic peer topic_hash store = join_known peer topic_hash (insert_hash topic_hash store).1

unfoldable pub leave_topic : PeerId → TopicHash → MemTopicStore → Bool × MemTopicStore
leave_topic peer topic_hash store = elim (get store.vacant topic_hash) [
  | some list ↦ (
    contains peer list,
    record store { vacant = insert store.vacant topic_hash (set_remove peer list) },
  )
  | none ↦ elim (get store.populated topic_hash) [
    | some (topic_string, list) ↦ (
      contains peer list,
      record store {
        populated = insert store.populated topic_hash (topic_string, set_remove peer list);
      },
    )
    | none ↦ (false, store)
  ]
]

unfoldable pub subscribe_topic : TopicHash → Option String → MemTopicStore → Bool × MemTopicStore
unfolding insert_topic insert_hash
subscribe_topic topic topic_string store =
    let store' = elim topic_string as (λ o. MemTopicStore) [
      | some text ↦ (insert_topic text topic store).1
      | none ↦ (insert_hash topic store).1
    ] in
    if contains topic store'.subscribed
    then (false, store')
    else (true, record store' { subscribed = set_insert topic store'.subscribed })

unfoldable pub unsubscribe_topic : TopicHash → MemTopicStore → Bool × MemTopicStore
unsubscribe_topic topic_hash store = (
  contains topic_hash store.subscribed,
  record store { subscribed = set_remove topic_hash store.subscribed },
)

unfoldable pub subscribed_topics : MemTopicStore → List TopicHash
subscribed_topics store = store.subscribed

-- A message of the network, which is a record of libp2p, or one that was published here.
pub data MessageRecord (Message : Type 0) : Type 0 where
  remote : Message → MessageRecord Message
  local : List ℕ → MessageRecord Message

pub record MemMessageStore (Message : Type 0) : Type 0 where
  pub inner : Table TopicHash (List (MessageRecord Message))

module _ {Message : Type 0} where
  unfoldable pub get_messages :
      TopicHash → MemMessageStore Message → Option (List (MessageRecord Message))
  get_messages topic_hash store = get store.inner topic_hash

  unfoldable pub insert_message :
      TopicHash → MessageRecord Message → MemMessageStore Message → MemMessageStore Message
  insert_message topic message store = elim (get store.inner topic) [
    | some messages ↦ record { inner = insert store.inner topic (messages ++ (message ∷ [])) }
    | none ↦ record { inner = insert store.inner topic (message ∷ []) }
  ]

  unfoldable pub clear_message :
      Option TopicHash → MemMessageStore Message → MemMessageStore Message
  clear_message none store = record { inner = empty }
  clear_message (some topic) store = record { inner = remove store.inner topic }
