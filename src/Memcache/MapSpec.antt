-- ===== src/Memcache/MapSpec.antt =====
-- What memcache/src/store.rs promises of its map: each operation answers and changes a partial map
-- from texts, whatever its entries are stored as.
use mathlib.Core.Path.{subst}
use owl_nest.Base.{
  ◌≡◌, refl, sym, ◌∙◌, String, Bool, true, false, Option, none, some, List, [], ◌∷◌, text_key, ◌==◌,
  if◌then◌else◌, inl, inr, Option-cases, keep, Bool-cases, ◌⊎◌, ap,
}
use owl_nest.Base.Table.{
  Table, get, insert, remove, retain, get-insert, get-remove, get-retain, get-is_empty,
}
use owl_nest.Memcache.{
  Callback, MapOps, get_single, get_all, lookup, set, try_insert, delete, MapResult, inserted,
  found_value, found_kv, modified, deleted, failed, MapStore, handle_op, serve,
}

abbrev pub Partial : Type 0 → Type 0
Partial V = String → Option V

module _ {V Regex : Type 0} (is_match : Regex → String → Bool) where
  -- The part of a map whose keys match.
  abbrev pub matching : Partial V → Regex → Partial V
  matching m p j = if is_match p j then m j else none

  -- A map with one key changed.
  abbrev pub with_key : Partial V → String → Option V → Partial V
  with_key m k v j = if k == j then v else m j

  -- What an operation may answer, from the partial map before it, and the one it leaves.
  pub data Allowed (m : Partial V) : MapOps V Regex → MapResult V → Partial V → Type 0 where
    got : (k : String) (tx : Callback) → Allowed m (get_single k tx) (found_value (m k)) m
    got_all :
        (t : Table String V) (tx : Callback)
        → get t ≡ m
        → Allowed m (get_all tx) (found_kv (some t)) m
    matched :
        (p : Regex) (t : Table String V) (tx : Callback)
        → get t ≡ matching m p
        → (k : String) (v : V) → get t k ≡ some v
        → Allowed m (lookup p tx) (found_kv (some t)) m
    unmatched :
        (p : Regex) (tx : Callback)
        → ((j : String) → matching m p j ≡ none)
        → Allowed m (lookup p tx) (found_kv none) m
    set_new :
        (k : String) (v : V) (tx : Callback)
        → m k ≡ none
        → Allowed m (set k v tx) inserted (with_key m k (some v))
    set_old :
        (k : String) (v old : V) (tx : Callback)
        → m k ≡ some old
        → Allowed m (set k v tx) (modified old) (with_key m k (some v))
    insert_new :
        (k : String) (v : V) (tx : Callback)
        → m k ≡ none
        → Allowed m (try_insert k v tx) inserted (with_key m k (some v))
    insert_old :
        (k : String) (v old : V) (tx : Callback)
        → m k ≡ some old
        → Allowed m (try_insert k v tx) failed m
    delete_old :
        (k : String) (old : V) (tx : Callback)
        → m k ≡ some old
        → Allowed m (delete k tx) (deleted old) (with_key m k none)
    delete_none : (k : String) (tx : Callback) → m k ≡ none → Allowed m (delete k tx) failed m

  abbrev pub callback : MapOps V Regex → Callback
  callback (get_single k tx) = tx
  callback (get_all tx) = tx
  callback (lookup p tx) = tx
  callback (set k v tx) = tx
  callback (try_insert k v tx) = tx
  callback (delete k tx) = tx

  -- One answer to each operation, in order and on its callback, each allowed by the map that the
  -- operations before it left.
  abbrev pub Serves :
      Partial V → List (MapOps V Regex) → List (Callback × MapResult V) → Partial V → Type 0
  Serves m [] [] n = m ≡ n
  Serves m [] (r ∷ rs) n = ⊥
  Serves m (op ∷ ops) [] n = ⊥
  Serves m (op ∷ ops) ((tx, r) ∷ rs) n =
      (tx ≡ callback op) × ((m' : Partial V) × Allowed m op r m' × Serves m' ops rs n)

  -- What one operation does.
  abbrev Done : MapStore V → MapOps V Regex → Type 0
  Done store op =
      ((handle_op is_match store op).0.0 ≡ callback op)
      × Allowed (get store.map) op (handle_op is_match store op).0.1
          (get (handle_op is_match store op).1.map)

  inserted_map :
      (t : Table String V) (k : String) (v : V) → with_key (get t) k (some v) ≡ get (insert t k v)
  inserted_map t k v = λ i j. sym (get-insert t k j v) i

  removed_map : (t : Table String V) (k : String) → with_key (get t) k none ≡ get (remove t k)
  removed_map t k = λ i j. sym (get-remove t k j) i

  unchanged_map : (t : Table String V) (k : String) → get t k ≡ none → get t ≡ get (remove t k)
  unchanged_map t k e = λ i j. gone j i
    where
      gone : (j : String) → get t j ≡ get (remove t k) j
      gone j = rw (get-remove t k j) (unchanged (Bool-cases (k == j)))
        where
          unchanged :
              (k == j ≡ true) ⊎ (k == j ≡ false) → get t j ≡ (if k == j then none else get t j)
          unchanged (inl f) = rw f (ap (get t) (sym ((text_key.same_iff k j).0 f)) ∙ e)
          unchanged (inr f) = rw f

  kept_map :
      (t : Table String V) (p : Regex) → matching (get t) p ≡ get (retain (λ k v. is_match p k) t)
  kept_map t p =
      λ i j. (same (get t j) (is_match p j) ∙ sym (get-retain (λ k v. is_match p k) t j)) i
    where
      same : (o : Option V) (b : Bool) → (if b then o else none) ≡ keep (λ v. b) o
      same none true = refl
      same none false = refl
      same (some v) b = refl

  handle_op-Done : (store : MapStore V) (op : MapOps V Regex) → Done store op
  unfolding handle_op
  handle_op-Done store (get_single k tx) = (refl, got k tx)
  handle_op-Done store (get_all tx) = (refl, got_all store.map tx refl)
  handle_op-Done store (lookup p tx) =
      elim (get-is_empty (retain (λ k v. is_match p k) store.map)) [
        | inl (e, none_left) ↦
            rw (e, handle_op)
              (refl, unmatched p tx λ j. ap (λ f. f j) (kept_map store.map p) ∙ none_left j)
        | inr (e, (k, v, f)) ↦
            rw (e, handle_op) (refl, matched p _ tx (sym (kept_map store.map p)) k v f)
      ]
  handle_op-Done store (set k v tx) = elim (Option-cases (get store.map k)) [
    | inl e ↦
        rw (e, handle_op) (refl, subst (Allowed _ _ _) (inserted_map _ k v) (set_new k v tx e))
    | inr (old, e) ↦
        rw (e, handle_op) (refl, subst (Allowed _ _ _) (inserted_map _ k v) (set_old k v old tx e))
  ]
  handle_op-Done store (try_insert k v tx) = elim (Option-cases (get store.map k)) [
    | inl e ↦
        rw (e, handle_op) (refl, subst (Allowed _ _ _) (inserted_map _ k v) (insert_new k v tx e))
    | inr (old, e) ↦ rw (e, handle_op) (refl, insert_old k v old tx e)
  ]
  handle_op-Done store (delete k tx) = elim (Option-cases (get store.map k)) [
    | inl e ↦
        rw (e, handle_op) (refl, subst (Allowed _ _ _) (unchanged_map _ k e) (delete_none k tx e))
    | inr (old, e) ↦
        rw (e, handle_op) (refl, subst (Allowed _ _ _) (removed_map _ k) (delete_old k old tx e))
  ]

  -- Whatever operations the clients send, and however they are interleaved on the channel, each gets
  -- one answer, in order, and that answer is the one that a partial map from texts gives after the
  -- operations before it: this is so from any map that the store starts with, and the map at the end
  -- is that partial map.
  pub serve-Serves :
      (store : MapStore V) (ops : List (MapOps V Regex))
      → Serves
          (get store.map)
          ops
          (serve is_match store ops).0
          (get (serve is_match store ops).1.map)
  unfolding serve
  serve-Serves store [] = refl
  serve-Serves store (op ∷ ops) =
      let (on_callback, allowed) = handle_op-Done store op in
      (on_callback, (_, allowed, serve-Serves (handle_op is_match store op).1 ops))
