-- ===== src/Gossip/TopicSpec/Participants.antt =====
-- What joining and leaving change in the topic store of gossipsub.rs.
use owl_nest.Base.{
  ◌≡◌, refl, sym, ◌∙◌, String, Bool, true, false, not, Option, none, some, List, text_key, nat_key,
  ◌==◌, if◌then◌else◌, inl, inr, ◌⊎◌, contains, set_insert, set_remove, arith,
}
use owl_nest.Base.Table.{get-insert}
use owl_nest.Gossip.{
  TopicHash, PeerId, MemTopicStore, insert_hash, join_known, join_topic, leave_topic,
}
use owl_nest.Gossip.TopicSpec.{Known, seen, both, view, Disjoint}
use owl_nest.Gossip.TopicSpec.Changes.{Puts, put, get_same, insert_hash-Puts}

-- Which of the maps holds a topic.
placed :
    (o : Option (String × List PeerId)) (v : Option (List PeerId)) (text : Option String)
    (list : List PeerId)
    → (o ≡ none) ⊎ (v ≡ none)
    → both o v ≡ some (text, list)
    → ((s : String) × (some s ≡ text) × (o ≡ some (s, list)) × (v ≡ none))
      ⊎ ((none ≡ text) × (o ≡ none) × (v ≡ some list))
placed (some (s, list')) none text list d k = ground (arith, k)
placed (some (s, list')) (some list'') text list d k = ground (arith, k, d)
placed none (some list') text list d k = ground (arith, k)
placed none none text list d k = ground (arith, k)

pub leave_topic-Puts :
    (peer : PeerId) (topic : TopicHash) (store : MemTopicStore) (text : Option String)
    (list : List PeerId)
    → Disjoint store
    → (view store).known topic ≡ some (text, list)
    → Puts
        (leave_topic peer topic store)
        store
        topic
        (contains peer list)
        (some (text, set_remove peer list))
unfolding leave_topic
leave_topic-Puts peer topic store text list d k = elim (placed _ _ text list (d topic) k) [
  | inl (s, g, f, e) ↦
      rw (e, f, leave_topic, sym g)
        (put topic store _ (some (s, set_remove peer list)) none d
          (λ h. get-insert store.populated topic h _) (λ h. get_same store.vacant topic h none e)
          (inr refl) refl)
  | inr (g, f, e) ↦
      rw (e, leave_topic, sym g)
        (put topic store _ none (some (set_remove peer list)) d
          (λ h. get_same store.populated topic h none f) (λ h. get-insert store.vacant topic h _)
          (inl refl) refl)
]

-- Entering a participant ends well if the topic is known.
join_known-Puts :
    (peer : PeerId) (topic : TopicHash) (store : MemTopicStore) (text : Option String)
    (list : List PeerId)
    → Disjoint store
    → (view store).known topic ≡ some (text, list)
    → (r : Bool × MemTopicStore) × (join_known peer topic store ≡ some r)
      × Puts r store topic (not (contains peer list)) (some (text, set_insert peer list))
unfolding join_known
join_known-Puts peer topic store text list d k = elim (placed _ _ text list (d topic) k) [
  | inl (s, g, f, e) ↦
      rw (e, f, join_known, sym g)
        (
          _,
          refl,
          put topic store _ (some (s, set_insert peer list)) none d
              (λ h. get-insert store.populated topic h _)
              (λ h. get_same store.vacant topic h none e) (inr refl) refl,
        )
  | inr (g, f, e) ↦
      rw (e, join_known, sym g)
        (
          _,
          refl,
          put topic store _ none (some (set_insert peer list)) d
              (λ h. get_same store.populated topic h none f)
              (λ h. get-insert store.vacant topic h _) (inl refl) refl,
        )
]

overwritten {ℓ} :
    {A : Type ℓ} (b : Bool) (m m' m'' k l : A)
    → (if b then k else m) ≡ m'
    → (if b then l else m') ≡ m''
    → (if b then l else m) ≡ m''
overwritten true m m' m'' k l e f = f
overwritten false m m' m'' k l e f = e ∙ f

chosen {ℓ} : {A : Type ℓ} (b : Bool) (k m m' : A) → b ≡ true → (if b then k else m) ≡ m' → m' ≡ k
chosen b k m m' e f = sym f ∙ rw e refl

-- Two results on one topic, the second after the first.
Puts-after :
    (r q : Bool × MemTopicStore) (store : MemTopicStore) (topic : TopicHash) (a b : Bool)
    (k l : Option Known)
    → Puts r store topic a k
    → Puts q r.1 topic b l
    → Puts q store topic b l
unfolding Puts
Puts-after r q store topic a b k l (x, d, e, s) (y, d', e', s') =
    (y, d', (λ h. overwritten (topic == h) _ _ _ _ _ (e h) (e' h)), s' ∙ s)

Puts-Disjoint :
    (r : Bool × MemTopicStore) (store : MemTopicStore) (topic : TopicHash) (a : Bool)
    (k : Option Known)
    → Puts r store topic a k
    → Disjoint r.1
unfolding Puts
Puts-Disjoint r store topic a k (x, d, e, s) = d

-- The topic itself is known as the result says.
Puts-topic :
    (r : Bool × MemTopicStore) (store : MemTopicStore) (topic : TopicHash) (a : Bool)
    (k : Option Known)
    → Puts r store topic a k
    → (view r.1).known topic ≡ k
unfolding Puts
Puts-topic r store topic a k (x, d, e, s) =
    chosen (topic == topic) _ _ _ ((text_key.same_iff topic topic).1 refl) (e topic)

pub join_topic-Puts :
    (peer : PeerId) (topic : TopicHash) (store : MemTopicStore)
    → Disjoint store
    → (r : Bool × MemTopicStore) × (join_topic peer topic store ≡ some r)
      × Puts r store topic (not (contains peer (seen ((view store).known topic)).1)) (
          some (
            (seen ((view store).known topic)).0,
            set_insert peer (seen ((view store).known topic)).1,
          ))
unfolding join_topic
join_topic-Puts peer topic store d =
    let entered = insert_hash-Puts topic store d in
    let (r, e, p) =
      join_known-Puts peer topic (insert_hash topic store).1 _ _
        (Puts-Disjoint _ store topic _ _ entered) (Puts-topic _ store topic _ _ entered) in
    (r, e, Puts-after _ r store topic _ _ _ _ entered p)
