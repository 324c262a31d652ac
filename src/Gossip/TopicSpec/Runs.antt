-- ===== src/Gossip/TopicSpec/Runs.antt =====
-- The topic store of gossipsub.rs does what is promised of it, over any run.
use owl_nest.Base.{
  ◌≡◌, refl, sym, ap, ◌∙◌, String, Bool, true, false, not, Option, none, some, List, [], ◌∷◌,
  text_key, nat_key, ◌==◌, if◌then◌else◌, Option-cases, Bool-cases, inl, inr, ◌⊎◌, holds, contains,
  set_insert, set_remove, contains-set_insert, contains-set_remove, arith,
}
use owl_nest.Base.Table.{get, contains-keys_where}
use owl_nest.Gossip.{
  TopicHash, PeerId, MemTopicStore, try_map, hash_topics, participants, leave_topic,
  subscribe_topic, unsubscribe_topic, subscribed_topics,
}
use owl_nest.Gossip.TopicSpec.{
  TopicOp, name, know, join, leave, subscribe, unsubscribe, perform, Known, Topics, changed,
  promised, both, view, Disjoint, perform_all, promised_all, Reads, name_of, members_of,
  is_nameless,
}
use owl_nest.Gossip.TopicSpec.Changes.{Puts, insert_topic-Puts, insert_hash-Puts}
use owl_nest.Gossip.TopicSpec.Participants.{leave_topic-Puts, join_topic-Puts}

-- An operation does not panic, keeps the maps disjoint, and does what is promised.
Performs : TopicOp → MemTopicStore → Type 0
Performs op store =
    (r : Bool × MemTopicStore) × (perform op store ≡ some r)
    × Disjoint r.1
    × (promised op (view store) ≡ (r.0, view r.1))

Puts-Performs :
    (op : TopicOp) (store : MemTopicStore) (r : Bool × MemTopicStore) (topic : TopicHash) (a : Bool)
    (k : Option Known)
    → perform op store ≡ some r
    → promised op (view store)
      ≡ (a, record (view store) { known = changed (view store).known topic k })
    → Puts r store topic a k
    → Performs op store
unfolding Performs Puts
Puts-Performs op store r topic a k e f (x, d, g, s) = (
  r,
  e,
  d,
  f ∙ λ i. (sym x i, record { known = λ h. g h i; subscribed = λ h. contains h (sym s i) }),
)

inserted :
    (topic h : TopicHash) (subs : List TopicHash)
    → (if topic == h then true else contains h subs) ≡ contains h (set_insert topic subs)
inserted topic h subs = ground (arith, contains-set_insert topic h subs)

removed :
    (topic h : TopicHash) (subs : List TopicHash)
    → (if topic == h then false else contains h subs) ≡ contains h (set_remove topic subs)
removed topic h subs = ground (arith, contains-set_remove topic h subs)

inserted_twice :
    (topic : TopicHash) (subs : List TopicHash)
    → contains topic subs ≡ true
    → set_insert topic subs ≡ subs
unfolding set_insert
inserted_twice topic subs e = rw e

-- A subscription after the topic was learnt.
subscribe-Performs :
    (op : TopicOp) (store : MemTopicStore) (r : Bool × MemTopicStore) (topic : TopicHash) (a : Bool)
    (k : Option Known)
    → perform op store
      ≡ some (
          if contains topic r.1.subscribed
          then (false, r.1)
          else (true, record r.1 { subscribed = set_insert topic r.1.subscribed }))
    → promised op (view store) ≡ (
      not (contains topic store.subscribed),
      record {
        known = changed (view store).known topic k;
        subscribed = changed (view store).subscribed topic true;
      },
    )
    → Puts r store topic a k
    → Performs op store
unfolding Performs Puts
subscribe-Performs op store r topic a k e f (x, d, g, s) =
    elim (Bool-cases (contains topic r.1.subscribed)) [
      | inl c ↦ (
        (false, r.1),
        e ∙ rw c,
        d,
        f ∙ λ i. (
          not ((ap (contains topic) (sym s) ∙ c) i),
          record {
            known = λ h. g h i;
            subscribed = λ h.
                (inserted topic h store.subscribed
                    ∙ ap (λ subs. contains h (set_insert topic subs)) (sym s)
                    ∙ ap (contains h) (inserted_twice topic r.1.subscribed c))
                  i;
          },
        ),
      )
      | inr c ↦ (
        (true, record r.1 { subscribed = set_insert topic r.1.subscribed }),
        e ∙ rw c,
        d,
        f ∙ λ i. (
          not ((ap (contains topic) (sym s) ∙ c) i),
          record {
            known = λ h. g h i;
            subscribed = λ h.
                (inserted topic h store.subscribed
                    ∙ ap (λ subs. contains h (set_insert topic subs)) (sym s))
                  i;
          },
        ),
      )
    ]

unknown :
    (o : Option (String × List PeerId)) (v : Option (List PeerId))
    → both o v ≡ none
    → (o ≡ none) × (v ≡ none)
unknown none none e = (refl, refl)
unknown none (some list) e = cc e
unknown (some (s, list)) v e = cc e

leave-Performs :
    (peer : PeerId) (topic : TopicHash) (store : MemTopicStore)
    → Disjoint store
    → Performs (leave peer topic) store
unfolding perform leave_topic Performs
leave-Performs peer topic store d =
    elim (Option-cases (both (get store.populated topic) (get store.vacant topic))) [
      | inl e ↦
          let (f, g) = unknown _ _ e in
          ((false, store), rw (g, leave_topic) (rw f refl), d, rw (e, promised) refl)
      | inr ((text, list), e) ↦
          Puts-Performs (leave peer topic) store _ topic (contains peer list)
            (some (text, set_remove peer list)) refl (rw (e, promised) refl)
            (leave_topic-Puts peer topic store text list d e)
    ]

perform-Performs : (op : TopicOp) (store : MemTopicStore) → Disjoint store → Performs op store
unfolding perform subscribe_topic unsubscribe_topic Performs
perform-Performs (name text topic) store d =
    Puts-Performs (name text topic) store _ topic _ _ refl refl
      (insert_topic-Puts text topic store d)
perform-Performs (know topic) store d =
    Puts-Performs (know topic) store _ topic _ _ refl refl (insert_hash-Puts topic store d)
perform-Performs (join peer topic) store d =
    let (r, e, p) = join_topic-Puts peer topic store d in
    Puts-Performs (join peer topic) store r topic _ _ e refl p
perform-Performs (leave peer topic) store d = leave-Performs peer topic store d
perform-Performs (subscribe topic none) store d =
    subscribe-Performs (subscribe topic none) store _ topic _ _ refl refl
      (insert_hash-Puts topic store d)
perform-Performs (subscribe topic (some text)) store d =
    subscribe-Performs (subscribe topic (some text)) store _ topic _ _ refl refl
      (insert_topic-Puts text topic store d)
perform-Performs (unsubscribe topic) store d = (
  unsubscribe_topic topic store,
  refl,
  d,
  λ i. (
    contains topic store.subscribed,
    record (view store) { subscribed = λ h. removed topic h store.subscribed i },
  ),
)

-- Runs that go on after one operation.
performed_on :
    (op : TopicOp) (ops : List TopicOp) (store store' store'' : MemTopicStore) (answer : Bool)
    (answers : List Bool)
    → perform op store ≡ some (answer, store')
    → perform_all store' ops ≡ some (answers, store'')
    → perform_all store (op ∷ ops) ≡ some (answer ∷ answers, store'')
unfolding perform_all
performed_on op ops store store' store'' answer answers e f = rw (e, perform_all) (rw f refl)

promised_on :
    (op : TopicOp) (ops : List TopicOp) (m m' m'' : Topics) (answer : Bool) (answers : List Bool)
    → promised op m ≡ (answer, m')
    → promised_all m' ops ≡ (answers, m'')
    → promised_all m (op ∷ ops) ≡ (answer ∷ answers, m'')
promised_on op ops m m' m'' answer answers e f =
    (λ i. ((e i).0 ∷ (promised_all (e i).1 ops).0, (promised_all (e i).1 ops).1)) ∙ λ i.
    (answer ∷ (f i).0, (f i).1)

read_both :
    (o : Option (String × List PeerId)) (v : Option (List PeerId))
    → (o ≡ none) ⊎ (v ≡ none)
    → (elim o as (λ x. Option String) [ some (text, list) ↦ some text | none ↦ none ]
        ≡ name_of (both o v))
      × (elim o as (λ x. Option (List PeerId)) [ some (text, list) ↦ some list | none ↦ v ]
          ≡ members_of (both o v))
      × (holds (λ list. true) v ≡ is_nameless (both o v))
read_both none none d = (refl, refl, refl)
read_both none (some list) d = (refl, refl, refl)
read_both (some (text, list)) none d = (refl, refl, refl)
read_both (some (text, list)) (some list') d = elim d [ inl e ↦ cc e | inr e ↦ cc e ]

Reads-view : (store : MemTopicStore) → Disjoint store → Reads store (view store)
unfolding try_map participants hash_topics subscribed_topics
Reads-view store d topic =
    let (nm, ms, hs) = read_both (get store.populated topic) (get store.vacant topic) (d topic) in
    (nm, ms, contains-keys_where (λ h list. true) store.vacant topic ∙ hs, refl)

-- Any operations on a store whose two maps are disjoint, as those of a new store are, are performed
-- without a panic; they give the answers, and leave the names, participants and subscriptions, that
-- the same operations give on one map from hashes and one set, which is what try_map, participants,
-- hash_topics and subscribed_topics read; and the two maps stay disjoint.
pub perform_all-view :
    (store : MemTopicStore) (ops : List TopicOp)
    → Disjoint store
    → (answers : List Bool) × (store' : MemTopicStore) × (perform_all store ops
        ≡ some (answers, store'))
      × Disjoint store'
      × Reads store' (view store')
      × (promised_all (view store) ops ≡ (answers, view store'))
unfolding perform_all Performs
perform_all-view store [] d = ([], store, refl, d, Reads-view store d, refl)
perform_all-view store (op ∷ ops) d =
    let ((answer, store'), e, d', p) = perform-Performs op store d in
    let (answers, store'', e', d'', reads, p') = perform_all-view store' ops d' in
    (
      answer ∷ answers,
      store'',
      performed_on op ops store store' store'' answer answers e e',
      d'',
      reads,
      promised_on op ops (view store) (view store') (view store'') answer answers p p',
    )
