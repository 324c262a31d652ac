-- ===== src/Gossip/Examples.antt =====
-- Runs of the stores and the handle of gossipsub.rs at concrete inputs, and their theorems there.
use owl_nest.Base.{
  ℕ, ◌≡◌, refl, Bool, true, false, none, some, List, [], ◌∷◌, text_key, nat_key, ◌==◌, contains,
  set_insert, set_remove, contains-set_insert, contains-set_remove, if◌then◌else◌, ◌≢◌, ◌∙◌, sym,
  ap, arith, inl,
}
use owl_nest.Base.Table.{get, empty, insert, remove}
use owl_nest.Gossip.{
  TopicHash, MemTopicStore, default, insert_topic, insert_hash, join_topic, leave_topic,
  subscribe_topic, unsubscribe_topic,
}
use owl_nest.Gossip.TopicSpec.{
  TopicOp, name, know, join, leave, subscribe, unsubscribe, perform, perform_all, promised_all,
  view, Disjoint, Reads,
}
use owl_nest.Gossip.TopicSpec.Runs.{perform_all-view}
use owl_nest.Gossip.Handle.{
  Gossipsub, Result, ok, subscribe_hash, Node, Steps, begin, answer, go_on, subscribed, answered,
  no_task, map_in_event, request, resume,
}
use owl_nest.Gossip.Subscriptions.{in_store, of_topic}
use owl_nest.Gossip.Subscriptions.Serial.{SerialSteps, stay, more, SerialSteps-agree}
use owl_nest.Gossip.Subscriptions.Race.{overlap_disagrees}

-- The test at the end of gossipsub.rs, and two peers.
abbrev ops : List TopicOp
ops =
    know "a"
    ∷ join 7 "a"
    ∷ name "topic a" "a"
    ∷ know "a"
    ∷ subscribe "b" none
    ∷ subscribe "b" (some "topic b")
    ∷ join 7 "a"
    ∷ leave 7 "a"
    ∷ unsubscribe "b"
    ∷ []

answers_test :
    (r : MemTopicStore) × (perform_all default ops
      ≡ some (true ∷ true ∷ false ∷ false ∷ true ∷ false ∷ false ∷ true ∷ true ∷ [], r))
unfolding perform_all perform get insert remove empty insert_topic insert_hash join_topic
    leave_topic subscribe_topic unsubscribe_topic contains set_insert set_remove
answers_test = (_, refl)

default-Disjoint : Disjoint default
unfolding get empty
default-Disjoint h = inl refl

perform_all-view_example :
    (answers : List Bool) × (store : MemTopicStore) × (perform_all default ops
      ≡ some (answers, store))
    × Disjoint store
    × Reads store (view store)
    × (promised_all (view default) ops ≡ (answers, view store))
perform_all-view_example = perform_all-view default ops default-Disjoint

abbrev pub subscribe_to : TopicHash → List TopicHash → Result Bool ℕ × List TopicHash
subscribe_to t b = if contains t b then (ok false, b) else (ok true, set_insert t b)

taken :
    (c : Bool) (b b' d : List TopicHash)
    → (let r : Result Bool ℕ × List TopicHash = if c then (ok false, b) else (ok true, d) in
        r ≡ (ok true, b'))
    → d ≡ b'
taken true b b' d e = cc (ap (λ x. x.0) e)
taken false b b' d e = ap (λ x. x.1) e

refused :
    (c : Bool) (b b' d : List TopicHash) (r : Result Bool ℕ)
    → (let x : Result Bool ℕ × List TopicHash = if c then (ok false, b) else (ok true, d) in
        x ≡ (r, b'))
    → r ≢ ok true
    → b' ≡ b
refused true b b' d r e h = sym (ap (λ x. x.1) e)
refused false b b' d r e h = absurd (h (sym (ap (λ x. x.0) e)))

pub subscribe_to-true :
    (t : TopicHash) (b b' : List TopicHash)
    → subscribe_to t b ≡ (ok true, b')
    → (j : TopicHash) → contains j b' ≡ (if t == j then true else contains j b)
subscribe_to-true t b b' e j =
    ap (contains j) (sym (taken (contains t b) b b' (set_insert t b) e))
    ∙ contains-set_insert t j b
    ∙ ground arith

pub subscribe_to-other :
    (t : TopicHash) (b b' : List TopicHash) (r : Result Bool ℕ)
    → subscribe_to t b ≡ (r, b')
    → r ≢ ok true
    → (j : TopicHash) → contains j b' ≡ contains j b
subscribe_to-other t b b' r e h j =
    ap (contains j) (refused (contains t b) b b' (set_insert t b) r e h)

pub topics_left :
    (t : TopicHash) (b : List TopicHash) (j : TopicHash)
    → contains j (set_remove t b) ≡ (if t == j then false else contains j b)
topics_left t b j = ground (arith, contains-set_remove t j b)

-- A behaviour that keeps the list of its topics and has a limit of none.
abbrev pub gossipsub : Gossipsub
gossipsub = record {
  Behaviour = List TopicHash;
  Message = ℕ;
  MessageId = ℕ;
  PublishError = ℕ;
  SubscriptionError = ℕ;
  topics = λ b t. contains t b;
  subscribe = subscribe_to;
  unsubscribe = λ t b. (contains t b, set_remove t b);
  publish = λ t m b. (ok 1, b);
  mesh_peers = λ t b. [];
  all_peers = λ b. [];
  blacklist_peer = λ p b. b;
  remove_blacklisted_peer = λ p b. b;
  subscribe_true = subscribe_to-true;
  subscribe_other = subscribe_to-other;
  unsubscribe_answer = λ t b. refl;
  unsubscribe_topics = topics_left;
  publish_topics = λ t m b j. refl;
  blacklist_topics = λ p b j. refl;
  unblacklist_topics = λ p b j. refl;
}

abbrev idle : Node gossipsub
idle = record {
  behaviour = [];
  stores = record { topic_store = default; message_store = record { inner = empty } };
  tasks = [];
}

-- A subscription, which is over before the end of the run.
abbrev answered_node : Node gossipsub
answered_node = record idle {
  behaviour = "a" ∷ [];
  tasks = answered (subscribe_hash "a") (subscribed (ok true)) ∷ [];
}

abbrev subscribed_node : Node gossipsub
subscribed_node = record answered_node {
  stores = resume gossipsub (subscribe_hash "a") (subscribed (ok true)) idle.stores;
  tasks = [];
}

subscription : SerialSteps gossipsub "a" idle subscribed_node
unfolding map_in_event request contains set_insert of_topic
subscription =
    more
      (more (more stay (begin (subscribe_hash "a")) (omega arith))
        (answer [] [] (subscribe_hash "a") no_task refl) (omega arith))
      (go_on [] [] (subscribe_hash "a") (subscribed (ok true)) refl) (omega arith)

SerialSteps-agree_example :
    gossipsub.topics subscribed_node.behaviour "a" ≡ in_store gossipsub "a" subscribed_node.stores
unfolding of_topic contains
SerialSteps-agree_example =
    SerialSteps-agree gossipsub "a" idle subscribed_node refl refl subscription refl

overlap_disagrees_example :
    (m : Node gossipsub) × Steps gossipsub idle m
    × (m.tasks ≡ [])
    × (contains "a" m.behaviour ≡ false)
    × (in_store gossipsub "a" m.stores ≡ true)
unfolding contains set_insert
overlap_disagrees_example = overlap_disagrees gossipsub "a" idle refl refl
