-- ===== src/Messaging/History.antt =====
-- The history of a peer in the message store of owlnest/src/net/p2p/protocols/messaging.rs.
use mathlib.Core.List.{append_assoc}
use owl_nest.Base.{
  ◌≡◌, refl, ap, ◌∙◌, Option, none, some, List, [], ◌∷◌, ◌++◌, ◌==◌, nat_key, if◌then◌else◌,
  Option-cases, Bool-cases, inl, inr, arith,
}
use owl_nest.Base.Table.{get, get-insert}
use owl_nest.Messaging.{PeerId, Message, incoming_message}
use owl_nest.Messaging.Front.{
  MemMessageStore, get_messages, push_message, Received, messaging, other, lagged, closed, listen,
}

-- What came before the first error.
unfoldable pub heard : List Received → List Received
heard [] = []
heard (lagged n ∷ rest) = []
heard (closed ∷ rest) = []
heard (r ∷ rest) = r ∷ heard rest

-- The messages of a peer, in order.
unfoldable pub messages_from : PeerId → List Received → List Message
messages_from peer [] = []
messages_from peer (messaging (incoming_message from msg) ∷ rest) =
    let others = messages_from peer rest in if from == peer then msg ∷ others else others
messages_from peer (_ ∷ rest) = messages_from peer rest

-- A history with more messages; a peer without one gets one with the first message.
unfoldable pub appended : Option (List Message) → List Message → Option (List Message)
appended o [] = o
appended none (m ∷ ms) = some (m ∷ ms)
appended (some old) (m ∷ ms) = some (old ++ (m ∷ ms))

get-push_message :
    (peer from : PeerId) (msg : Message) (store : MemMessageStore)
    → get_messages peer (push_message from msg store) ≡ (
        if from == peer
        then appended (get_messages peer store) (msg ∷ [])
        else get_messages peer store)
unfolding get_messages push_message appended
get-push_message peer from msg store = elim (Option-cases (get store.store from)) [
  | inl e ↦
      rw (e, push_message)
        (ground (arith, e, get-insert store.store from peer (msg ∷ []), nat_key.same_iff from peer))
  | inr (messages, e) ↦
      rw (e, push_message)
        (ground (arith, e, get-insert store.store from peer (messages ++ (msg ∷ []))))
]

appended-cons :
    (o : Option (List Message)) (m : Message) (ms : List Message)
    → appended (appended o (m ∷ [])) ms ≡ appended o (m ∷ ms)
unfolding appended
appended-cons none m [] = refl
appended-cons (some old) m [] = refl
appended-cons none m (x ∷ xs) = refl
appended-cons (some old) m (x ∷ xs) = rw append_assoc

-- After the task has listened, the history of each peer is the one from before with the messages
-- appended, in order, that came from the peer before the first error; what came later is not in it.
pub listen-history :
    (received : List Received) (store : MemMessageStore) (peer : PeerId)
    → get_messages peer (listen received store)
      ≡ appended (get_messages peer store) (messages_from peer (heard received))
unfolding listen heard messages_from appended
listen-history [] store peer = refl
listen-history (lagged n ∷ rest) store peer = refl
listen-history (closed ∷ rest) store peer = refl
listen-history (messaging (incoming_message from msg) ∷ rest) store peer =
    listen-history rest (push_message from msg store) peer
    ∙ ap (λ o. appended o (messages_from peer (heard rest))) (get-push_message peer from msg store)
    ∙ elim (Bool-cases (from == peer)) [
      | inl e ↦ rw e (appended-cons (get_messages peer store) msg (messages_from peer (heard rest)))
      | inr e ↦ rw e
    ]
listen-history (messaging ev ∷ rest) store peer = listen-history rest store peer
listen-history (other ∷ rest) store peer = listen-history rest store peer
