-- ===== src/Gossip/TopicSpec.antt =====
-- What the topic store of gossipsub.rs promises: a map from hashes to what is known of the topic, its
-- name if it is known and its participants, and a set of subscriptions.
pub mod Changes
pub mod Participants
pub mod Runs
use owl_nest.Base.{
  ℕ, ◌≡◌, refl, sym, ap, ◌∙◌, String, Bool, true, false, not, ◌||◌, ◌&&◌, Option, none, some, List,
  [], ◌∷◌, text_key, nat_key, ◌==◌, Key, if◌then◌else◌, Option-cases, Bool-cases, inl, inr, ◌⊎◌,
  is_some, holds, contains, set_insert, set_remove, contains-set_insert, contains-set_remove, arith,
}
use owl_nest.Base.Table.{
  Table, get, insert, remove, get-insert, get-remove, get-empty, contains-keys_where,
}
use owl_nest.Gossip.{
  TopicHash, PeerId, MemTopicStore, default, insert_topic, insert_hash, try_map, hash_topics,
  participants, join_known, join_topic, leave_topic, subscribe_topic, unsubscribe_topic,
  subscribed_topics,
}

-- The methods of the trait `TopicStore` that may change a store.
pub data TopicOp : Type 0 where
  name : String → TopicHash → TopicOp
  know : TopicHash → TopicOp
  join : PeerId → TopicHash → TopicOp
  leave : PeerId → TopicHash → TopicOp
  subscribe : TopicHash → Option String → TopicOp
  unsubscribe : TopicHash → TopicOp

-- `none` is a panic.
unfoldable pub perform : TopicOp → MemTopicStore → Option (Bool × MemTopicStore)
perform (name text topic) store = some (insert_topic text topic store)
perform (know topic) store = some (insert_hash topic store)
perform (join peer topic) store = join_topic peer topic store
perform (leave peer topic) store = some (leave_topic peer topic store)
perform (subscribe topic text) store = some (subscribe_topic topic text store)
perform (unsubscribe topic) store = some (unsubscribe_topic topic store)

-- What is known of a topic.
abbrev pub Known : Type 0
Known = Option String × List PeerId

pub record Topics : Type 0 where
  pub known : TopicHash → Option Known
  pub subscribed : TopicHash → Bool

abbrev pub no_topics : Topics
no_topics = record { known = λ h. none; subscribed = λ h. false }

abbrev pub changed {ℓ} : {A : Type ℓ} → (TopicHash → A) → TopicHash → A → TopicHash → A
changed m topic v h = if topic == h then v else m h

-- A topic gets its name if it has none, and is known from then on.
abbrev pub named : String → Option Known → Option Known
named text none = some (some text, [])
named text (some (none, list)) = some (some text, list)
named text (some (some old, list)) = some (some old, list)

abbrev pub seen : Option Known → Known
seen none = (none, [])
seen (some k) = k

abbrev pub mentioned : Option String → Option Known → Option Known
mentioned none o = some (seen o)
mentioned (some text) o = named text o

abbrev pub promised : TopicOp → Topics → Bool × Topics
promised (name text topic) m = (
  not (is_some (m.known topic)),
  record m { known = changed m.known topic (named text (m.known topic)) },
)
promised (know topic) m = (
  not (is_some (m.known topic)),
  record m { known = changed m.known topic (some (seen (m.known topic))) },
)
promised (join peer topic) m =
    let (text, list) = seen (m.known topic) in
    (
      not (contains peer list),
      record m { known = changed m.known topic (some (text, set_insert peer list)) },
    )
promised (leave peer topic) m = elim (m.known topic) [
  | none ↦ (false, m)
  | some (text, list) ↦ (
    contains peer list,
    record m { known = changed m.known topic (some (text, set_remove peer list)) },
  )
]
promised (subscribe topic text) m = (
  not (m.subscribed topic),
  record {
    known = changed m.known topic (mentioned text (m.known topic));
    subscribed = changed m.subscribed topic true;
  },
)
promised (unsubscribe topic) m =
    (m.subscribed topic, record m { subscribed = changed m.subscribed topic false })

-- What a store knows of a topic, whichever of its two maps holds it.
abbrev both : Option (String × List PeerId) → Option (List PeerId) → Option Known
both (some (text, list)) o = some (some text, list)
both none (some list) = some (none, list)
both none none = none

abbrev pub view : MemTopicStore → Topics
view store = record {
  known = λ h. both (get store.populated h) (get store.vacant h);
  subscribed = λ h. contains h store.subscribed;
}

-- No topic stands in both maps.
abbrev pub Disjoint : MemTopicStore → Type 0
Disjoint store = (h : TopicHash) → (get store.populated h ≡ none) ⊎ (get store.vacant h ≡ none)

infixl 5 ◌>>=◌
abbrev pub ◌>>=◌ {ℓ κ} : {A : Type ℓ} {B : Type κ} → Option A → (A → Option B) → Option B
none >>= f = none
some a >>= f = f a

-- The operations of clients, in the order in which the store performs them; `none` is a panic.
unfoldable pub perform_all : MemTopicStore → List TopicOp → Option (List Bool × MemTopicStore)
perform_all store [] = some ([], store)
perform_all store (op ∷ ops) = do
  (answer, store') ← perform op store
  (answers, store'') ← perform_all store' ops
  some (answer ∷ answers, store'')

abbrev pub promised_all : Topics → List TopicOp → List Bool × Topics
promised_all m [] = ([], m)
promised_all m (op ∷ ops) =
    let (answer, m') = promised op m in
    let (answers, m'') = promised_all m' ops in (answer ∷ answers, m'')

-- What is read of a topic that is known so.
abbrev pub name_of : Option Known → Option String
name_of none = none
name_of (some (text, list)) = text

abbrev pub members_of : Option Known → Option (List PeerId)
members_of none = none
members_of (some (text, list)) = some list

abbrev pub is_nameless : Option Known → Bool
is_nameless none = false
is_nameless (some (none, list)) = true
is_nameless (some (some text, list)) = false

abbrev pub Reads : MemTopicStore → Topics → Type 0
Reads store m =
    (topic : TopicHash)
    → (try_map topic store ≡ name_of (m.known topic))
      × (participants topic store ≡ members_of (m.known topic))
      × (contains topic (hash_topics store) ≡ is_nameless (m.known topic))
      × (contains topic (subscribed_topics store) ≡ m.subscribed topic)
