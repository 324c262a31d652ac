-- ===== src/Gossip/TopicSpec/Changes.antt =====
-- What each operation of the topic store of gossipsub.rs changes: one topic, in one of the two maps.
use owl_nest.Base.{
  ◌≡◌, refl, sym, ap, ◌∙◌, String, Bool, true, false, not, Option, none, some, List, [], text_key,
  nat_key, ◌==◌, if◌then◌else◌, Option-cases, Bool-cases, inl, inr, ◌⊎◌, is_some,
}
use owl_nest.Base.Table.{Table, get, get-insert, get-remove}
use owl_nest.Gossip.{TopicHash, PeerId, MemTopicStore, insert_topic, insert_hash}
use owl_nest.Gossip.TopicSpec.{Known, changed, named, seen, both, view, Disjoint}

-- A result that answers `answer`, knows `k` of one topic and leaves the others and the subscriptions.
unfoldable pub Puts :
    Bool × MemTopicStore → MemTopicStore → TopicHash → Bool → Option Known → Type 0
Puts r store topic answer k =
    (r.0 ≡ answer)
    × Disjoint r.1
    × ((h : TopicHash) → changed (view store).known topic k h ≡ (view r.1).known h)
    × (r.1.subscribed ≡ store.subscribed)

still_apart {ℓ κ} :
    {A : Type ℓ} {B : Type κ} {p q s : Option A} {v w x : Option B} (b : Bool)
    → q ≡ (if b then p else s)
    → w ≡ (if b then v else x)
    → (s ≡ none) ⊎ (x ≡ none)
    → (p ≡ none) ⊎ (v ≡ none)
    → (q ≡ none) ⊎ (w ≡ none)
still_apart true e f d d' = elim d' [ inl g ↦ inl (e ∙ g) | inr g ↦ inr (f ∙ g) ]
still_apart false e f d d' = elim d [ inl g ↦ inl (e ∙ g) | inr g ↦ inr (f ∙ g) ]

both_changed :
    (b : Bool) (p q s : Option (String × List PeerId)) (v w x : Option (List PeerId))
    → q ≡ (if b then p else s)
    → w ≡ (if b then v else x)
    → (if b then both p v else both s x) ≡ both q w
both_changed true p q s v w x e f = rw (e, f)
both_changed false p q s v w x e f = rw (e, f)

pub get_same :
    {V : Type 0} (m : Table TopicHash V) (topic h : TopicHash) (o : Option V)
    → get m topic ≡ o
    → get m h ≡ (if topic == h then o else get m h)
get_same m topic h o f = elim (Bool-cases (topic == h)) [
  | inl e ↦ rw e (ap (get m) (sym ((text_key.same_iff topic h).0 e)) ∙ f)
  | inr e ↦ rw e
]

-- One topic's entries change, and at most one of the new ones is there.
pub put :
    (topic : TopicHash) (store : MemTopicStore) (r : Bool × MemTopicStore)
    (p : Option (String × List PeerId)) (v : Option (List PeerId))
    → Disjoint store
    → ((h : TopicHash) → get r.1.populated h ≡ (if topic == h then p else get store.populated h))
    → ((h : TopicHash) → get r.1.vacant h ≡ (if topic == h then v else get store.vacant h))
    → (p ≡ none) ⊎ (v ≡ none)
    → r.1.subscribed ≡ store.subscribed
    → Puts r store topic r.0 (both p v)
unfolding Puts
put topic store r p v d e f d' g = (
  refl,
  (λ h. still_apart (topic == h) (e h) (f h) (d h) d'),
  (λ h. both_changed (topic == h) _ _ _ _ _ _ (e h) (f h)),
  g,
)

pub gone :
    (topic : TopicHash) (store : MemTopicStore) (list : List PeerId)
    → Disjoint store
    → get store.vacant topic ≡ some list
    → get store.populated topic ≡ none
gone topic store list d e = elim (d topic) [ inl f ↦ f | inr f ↦ cc (e, f) ]

pub insert_topic-Puts :
    (text : String) (topic : TopicHash) (store : MemTopicStore)
    → Disjoint store
    → Puts
        (insert_topic text topic store)
        store
        topic
        (not (is_some ((view store).known topic)))
        (named text ((view store).known topic))
unfolding insert_topic
insert_topic-Puts text topic store d = elim (Option-cases (get store.vacant topic)) [
  | inl e ↦ elim (Option-cases (get store.populated topic)) [
    | inl f ↦
        rw (e, f, insert_topic)
          (put topic store _ (some (text, [])) none d
            (λ h. get-insert store.populated topic h (text, []))
            (λ h. get_same store.vacant topic h none e) (inr refl) refl)
    | inr ((old, list), f) ↦
        rw (e, f, insert_topic)
          (put topic store _ (some (old, list)) none d (λ h. get_same store.populated topic h _ f)
            (λ h. get_same store.vacant topic h none e) (inr refl) refl)
  ]
  | inr (list, e) ↦
      rw (e, gone topic store list d e, insert_topic)
        (put topic store _ (some (text, list)) none d
          (λ h. get-insert store.populated topic h (text, list))
          (λ h. get-remove store.vacant topic h) (inr refl) refl)
]

pub insert_hash-Puts :
    (topic : TopicHash) (store : MemTopicStore)
    → Disjoint store
    → Puts
        (insert_hash topic store)
        store
        topic
        (not (is_some ((view store).known topic)))
        (some (seen ((view store).known topic)))
unfolding insert_hash
insert_hash-Puts topic store d = elim (Option-cases (get store.vacant topic)) [
  | inl e ↦ elim (Option-cases (get store.populated topic)) [
    | inl f ↦
        rw (e, f, insert_hash)
          (put topic store _ none (some []) d (λ h. get_same store.populated topic h none f)
            (λ h. get-insert store.vacant topic h []) (inl refl) refl)
    | inr ((old, list), f) ↦
        rw (e, f, insert_hash)
          (put topic store _ (some (old, list)) none d (λ h. get_same store.populated topic h _ f)
            (λ h. get_same store.vacant topic h none e) (inr refl) refl)
  ]
  | inr (list, e) ↦
      rw (e, gone topic store list d e, insert_hash)
        (put topic store _ none (some list) d
          (λ h. get_same store.populated topic h none (gone topic store list d e))
          (λ h. get_same store.vacant topic h _ e) (inl refl) refl)
]
