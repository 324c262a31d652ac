-- ===== src/Messaging/Front.antt =====
-- owlnest/src/net/p2p/protocols/messaging.rs: the store of messages, and the task that listens to
-- the events of the swarm for it.
use owl_nest.Base.{ℕ, true, Option, none, some, List, [], ◌∷◌, ◌++◌, map, nat_key}
use owl_nest.Base.Table.{Table, empty, get, insert, keys_where}
use owl_nest.Messaging.{PeerId, Message, OutEvent, incoming_message}

pub record MemMessageStore : Type 0 where
  pub store : Table PeerId (List Message)

abbrev pub default : MemMessageStore
default = record { store = empty }

unfoldable pub insert_empty_record : PeerId → MemMessageStore → MemMessageStore
insert_empty_record peer_id self = elim (get self.store peer_id) [
  | none ↦ record { store = insert self.store peer_id [] }
  | some messages ↦ self
]

unfoldable pub get_messages : PeerId → MemMessageStore → Option (List Message)
get_messages peer_id self = get self.store peer_id

unfoldable pub push_message : PeerId → Message → MemMessageStore → MemMessageStore
push_message peer message self = elim (get self.store peer) [
  | none ↦ record { store = insert self.store peer (message ∷ []) }
  | some messages ↦ record { store = insert self.store peer (messages ++ (message ∷ [])) }
]

unfoldable pub list_all_peers : MemMessageStore → List PeerId
list_all_peers self = keys_where (λ peer messages. true) self.store

unfoldable pub clear_message : Option PeerId → MemMessageStore → MemMessageStore
clear_message none self = record {
  store = record { entries = map (λ entry. (entry.0, [])) self.store.entries };
}
clear_message (some peer_id) self = elim (get self.store peer_id) [
  | none ↦ self
  | some messages ↦ record { store = insert self.store peer_id [] }
]

unfoldable pub empty_store : MemMessageStore → MemMessageStore
empty_store self = record { store = empty }

-- What `recv` of a broadcast channel gives: an event of the swarm, here one of the messaging behaviour
-- or another; or an error, because the receiver was too slow and missed some, or because the channel
-- is closed.
pub data Received : Type 0 where
  messaging : OutEvent → Received
  other : Received
  lagged : ℕ → Received
  closed : Received

-- The task that `Handle::new` spawns. Its loop ends with the first error.
unfoldable pub listen : List Received → MemMessageStore → MemMessageStore
unfolding push_message
listen [] store = store
listen (messaging (incoming_message from msg) ∷ rest) store =
    listen rest (push_message from msg store)
listen (messaging ev ∷ rest) store = listen rest store
listen (other ∷ rest) store = listen rest store
listen (lagged n ∷ rest) store = store
listen (closed ∷ rest) store = store
