-- ===== src/Gossip/Subscriptions/Serial.antt =====
-- Calls on a gossipsub handle that do not overlap on a topic, and some that do.
use mathlib.Core.Path.{subst, transport}
use mathlib.Core.List.{append-nil}
use owl_nest.Base.{
  ◌≡◌, refl, sym, ap, ◌∙◌, Bool, true, false, List, [], ◌∷◌, ◌++◌, arith, Bool-cases, inl, inr, ◌≤◌,
  length, length-append,
}
use owl_nest.Gossip.{TopicHash}
use owl_nest.Gossip.Handle.{
  Gossipsub, Answer, map_in_event, Call, request, resume, Task, sent, answered, Node, Step, begin,
  answer, go_on,
}
use owl_nest.Gossip.Subscriptions.{
  concerns, call_of, of_topic, effect, in_store, in_store-resume, topics-map_in_event,
  effect_elsewhere,
}

module _ (g : Gossipsub) (t : TopicHash) where
  -- Steps while at most one call that concerns the topic is under way.
  pub data SerialSteps (n : Node g) : Node g → Type 0 where
    stay : SerialSteps n n
    more :
        {m k : Node g}
        → SerialSteps n m
        → Step g m k
        → length (of_topic g t k.tasks) ≤ 1
        → SerialSteps n k

  -- How the subscriptions of the swarm, `p`, and those of the store, `q`, go together on the topic.
  Settled : List (Task g) → Bool → Bool → Type 0
  Settled [] p q = p ≡ q
  Settled (sent c ∷ []) p q = p ≡ q
  Settled (answered c a ∷ []) p q = p ≡ effect g t c a q
  Settled (x ∷ y ∷ xs) p q = ⊥

  of_topic-append :
      (xs ys : List (Task g)) → of_topic g t (xs ++ ys) ≡ of_topic g t xs ++ of_topic g t ys
  unfolding of_topic
  of_topic-append [] ys = refl
  of_topic-append (x ∷ xs) ys = elim (Bool-cases (concerns g t (call_of g x))) [
    | inl e ↦ rw (e, of_topic-append xs ys) refl
    | inr e ↦ rw (e, of_topic-append xs ys) refl
  ]

  of_topic-cons :
      (x : Task g) (xs : List (Task g))
      → concerns g t (call_of g x) ≡ true
      → of_topic g t (x ∷ xs) ≡ x ∷ of_topic g t xs
  unfolding of_topic
  of_topic-cons x xs e = rw e

  of_topic-skip :
      (x : Task g) (xs : List (Task g))
      → concerns g t (call_of g x) ≡ false
      → of_topic g t (x ∷ xs) ≡ of_topic g t xs
  unfolding of_topic
  of_topic-skip x xs e = rw e

  of_topic-around :
      (before after : List (Task g)) (x : Task g)
      → concerns g t (call_of g x) ≡ true
      → of_topic g t (before ++ (x ∷ after)) ≡ of_topic g t before ++ (x ∷ of_topic g t after)
  of_topic-around before after x e =
      of_topic-append before (x ∷ after) ∙ ap (◌++◌ (of_topic g t before)) (of_topic-cons x after e)

  alone : (us vs : List (Task g)) (x : Task g) → length (us ++ (x ∷ vs)) ≤ 1 → (us ≡ []) × (vs ≡ [])
  alone [] [] x h = (refl, refl)
  alone [] (v ∷ vs) x h = absurd (omega arith)
  alone (u ∷ us) vs x h = absurd (omega (arith, length-append us (x ∷ vs)))

  -- The tasks of a topic that stands for one task only.
  of_topic-alone :
      (before after : List (Task g)) (x : Task g)
      → concerns g t (call_of g x) ≡ true
      → length (of_topic g t (before ++ (x ∷ after))) ≤ 1
      → (of_topic g t before ≡ []) × (of_topic g t after ≡ [])
  of_topic-alone before after x e h =
      alone _ _ x (subst (λ xs. length xs ≤ 1) (of_topic-around before after x e) h)

  of_topic-single :
      (before after : List (Task g)) (x : Task g)
      → concerns g t (call_of g x) ≡ true
      → (of_topic g t before ≡ []) × (of_topic g t after ≡ [])
      → of_topic g t (before ++ (x ∷ after)) ≡ x ∷ []
  of_topic-single before after x e (b, a) = of_topic-around before after x e ∙ λ i. b i ++ (x ∷ a i)

  of_topic-other :
      (before after : List (Task g)) (x : Task g)
      → concerns g t (call_of g x) ≡ false
      → of_topic g t (before ++ (x ∷ after)) ≡ of_topic g t (before ++ after)
  of_topic-other before after x e =
      of_topic-append before (x ∷ after)
      ∙ ap (◌++◌ (of_topic g t before)) (of_topic-skip x after e)
      ∙ sym (of_topic-append before after)

  carry :
      (xs ys : List (Task g)) (p p' q q' : Bool)
      → xs ≡ ys
      → p ≡ p'
      → q ≡ q'
      → Settled xs p q
      → Settled ys p' q'
  unfolding Settled
  carry xs ys p p' q q' e f h s = transport (λ k. Settled (e k) (f k) (h k)) s

  -- The node's own task list, or another one with the same tasks of the topic.
  abbrev SettledBy : List (Task g) → Node g → Type 0
  SettledBy xs n = Settled (of_topic g t xs) (g.topics n.behaviour t) (in_store g t n.stores)

  begin-Settled :
      (n : Node g) (c : Call g)
      → length (of_topic g t (n.tasks ++ (sent c ∷ []))) ≤ 1
      → SettledBy n.tasks n
      → SettledBy (n.tasks ++ (sent c ∷ [])) n
  unfolding Settled
  begin-Settled n c h s = elim (Bool-cases (concerns g t c)) [
    | inl e ↦
        let (b, a) = of_topic-alone n.tasks [] (sent c) e h in
        carry (sent c ∷ []) _ _ _ _ _ (sym (of_topic-single n.tasks [] (sent c) e (b, a))) refl refl
          (carry _ [] _ _ _ _ b refl refl s)
    | inr e ↦
        carry _ _ _ _ _ _
          (sym (of_topic-other n.tasks [] (sent c) e ∙ ap (of_topic g t) (append-nil n.tasks))) refl
          refl s
  ]

  answer-Settled :
      (n : Node g) (before after : List (Task g)) (c : Call g)
      → length (of_topic g t (before ++ (sent c ∷ after))) ≤ 1
      → SettledBy (before ++ (sent c ∷ after)) n
      → (let (a, b) = map_in_event g (request g c) n.behaviour in
          SettledBy (before ++ (answered c a ∷ after)) (record n { behaviour = b }))
  unfolding Settled
  answer-Settled n before after c h s = elim (Bool-cases (concerns g t c)) [
    | inl e ↦
        let others = of_topic-alone before after (sent c) e h in
        let agree : g.topics n.behaviour t ≡ in_store g t n.stores =
          carry _ (sent c ∷ []) _ _ _ _ (of_topic-single before after (sent c) e others) refl refl
            s in
        carry (answered c (map_in_event g (request g c) n.behaviour).0 ∷ []) _ _ _ _ _
          (sym (of_topic-single before after (answered c _) e others)) refl refl
          (topics-map_in_event g t c n.behaviour ∙ ap (effect g t c _) agree)
    | inr e ↦
        carry _ _ _ _ _ _
          (of_topic-other before after (sent c) e
            ∙ sym (of_topic-other before after (answered c _) e))
          (sym (topics-map_in_event g t c n.behaviour ∙ effect_elsewhere g t c _ _ e)) refl s
  ]

  go_on-Settled :
      (n : Node g) (before after : List (Task g)) (c : Call g) (a : Answer g)
      → length (of_topic g t (before ++ (answered c a ∷ after))) ≤ 1
      → SettledBy (before ++ (answered c a ∷ after)) n
      → SettledBy (before ++ after) (record n { stores = resume g c a n.stores })
  unfolding Settled
  go_on-Settled n before after c a h s = elim (Bool-cases (concerns g t c)) [
    | inl e ↦
        let (b, r) = of_topic-alone before after (answered c a) e h in
        let agree : g.topics n.behaviour t ≡ effect g t c a (in_store g t n.stores) =
          carry _ (answered c a ∷ []) _ _ _ _ (of_topic-single before after (answered c a) e (b, r))
            refl refl s in
        carry [] _ _ _ _ _ (sym (of_topic-append before after ∙ λ i. b i ++ r i)) refl refl
          (agree ∙ sym (in_store-resume g t c a n.stores))
    | inr e ↦
        carry _ _ _ _ _ _ (of_topic-other before after (answered c a) e) refl
          (sym (in_store-resume g t c a n.stores ∙ effect_elsewhere g t c a _ e)) s
  ]

  Step-Settled :
      (n m : Node g)
      → Step g n m
      → length (of_topic g t n.tasks) ≤ 1
      → length (of_topic g t m.tasks) ≤ 1
      → SettledBy n.tasks n
      → SettledBy m.tasks m
  Step-Settled n m (begin c) h h' s = begin-Settled n c h' s
  Step-Settled n m (answer before after c fifo e) h h' s =
      answer-Settled n before after c (subst (λ xs. length (of_topic g t xs) ≤ 1) e h)
        (subst (λ xs. SettledBy xs n) e s)
  Step-Settled n m (go_on before after c a e) h h' s =
      go_on-Settled n before after c a (subst (λ xs. length (of_topic g t xs) ≤ 1) e h)
        (subst (λ xs. SettledBy xs n) e s)

  SerialSteps-Settled :
      (n m : Node g)
      → SerialSteps n m
      → length (of_topic g t n.tasks) ≤ 1
      → SettledBy n.tasks n
      → (length (of_topic g t m.tasks) ≤ 1) × SettledBy m.tasks m
  SerialSteps-Settled n m stay h s = (h, s)
  SerialSteps-Settled n k (more {m} run step h') h s =
      let (hm, sm) = SerialSteps-Settled n m run h s in (h', Step-Settled m k step hm h' sm)

  -- From a node that has no call about the topic under way, and whose store has the topic among its
  -- subscriptions exactly if the swarm has, any steps of any calls lead, as long as at most one call
  -- about the topic is under way at a time, only to nodes for which the same is so whenever no call
  -- about the topic is under way.
  pub SerialSteps-agree :
      (n m : Node g)
      → of_topic g t n.tasks ≡ []
      → g.topics n.behaviour t ≡ in_store g t n.stores
      → SerialSteps n m
      → of_topic g t m.tasks ≡ []
      → g.topics m.behaviour t ≡ in_store g t m.stores
  unfolding Settled
  SerialSteps-agree n m e s run e' =
      let (h, r) =
        SerialSteps-Settled n m run (rw e (omega arith)) (carry [] _ _ _ _ _ (sym e) refl refl s) in
      carry _ [] _ _ _ _ e' refl refl r
