-- ===== src/Memcache/SetCount.antt =====
-- Who wins on the set of memcache/src/store.rs: the answers to its clients, counted.
use owl_nest.Base.{
  ℕ, ◌≡◌, refl, Bool, true, false, List, [], ◌∷◌, Key, ◌==◌, if◌then◌else◌, arith, contains,
  set_insert, set_remove, contains-set_insert, contains-set_remove, ◌+◌, suc,
}
use owl_nest.Memcache.{
  Callback, SetOps, find, try_insert, delete, dump, SetResult, inserted, deleted, SetStore,
  handle_ops, serve_set,
}

abbrev pub is_inserted : {T : Type 0} → SetResult T → Bool
is_inserted inserted = true
is_inserted _ = false

abbrev pub is_deleted : {T : Type 0} → SetResult T → Bool
is_deleted deleted = true
is_deleted _ = false

abbrev pub one_if : Bool → ℕ
one_if b = if b then 1 else 0

module _ {T : Type 0} ⦃key : Key T⦄ where
  -- Whether an operation is on a value.
  abbrev pub is_on : T → SetOps T → Bool
  is_on v (find u tx) = u == v
  is_on v (try_insert u tx) = u == v
  is_on v (delete u tx) = u == v
  is_on v (dump tx) = false

  -- How many operations on a value got an answer that passes a test.
  unfoldable pub answered :
      (SetResult T → Bool) → T → List (SetOps T) → List (Callback × SetResult T) → ℕ
  answered p v [] rs = 0
  answered p v (op ∷ ops) [] = 0
  answered p v (op ∷ ops) ((tx, r) ∷ rs) =
      let rest = answered p v ops rs in
      if is_on v op then (if p r then suc rest else rest) else rest

  abbrev pub Balance : T → SetStore T → List (SetOps T) → Type 0
  Balance v store ops =
      let (rs, store') = serve_set store ops in
      answered is_inserted v ops rs + one_if (contains v store.set)
      ≡ answered is_deleted v ops rs + one_if (contains v store'.set)

  -- For each value and any operations from any clients, the insertions of the value that were answered
  -- by success and, if the set had it before, one more, are as many as its deletions that were answered
  -- by success and, if the set has it afterwards, one more.
  pub serve_set-Balance : (v : T) (store : SetStore T) (ops : List (SetOps T)) → Balance v store ops
  unfolding serve_set answered handle_ops
  serve_set-Balance v store [] = refl
  serve_set-Balance v store (find u tx ∷ ops) =
      ground (arith, serve_set-Balance v store ops, key.same_iff u v)
  serve_set-Balance v store (dump tx ∷ ops) = serve_set-Balance v store ops
  serve_set-Balance v store (try_insert u tx ∷ ops) = ground (
    arith,
    serve_set-Balance v (record { set = set_insert u store.set }) ops,
    contains-set_insert u v store.set,
    key.same_iff u v,
  )
  serve_set-Balance v store (delete u tx ∷ ops) = ground (
    arith,
    serve_set-Balance v (record { set = set_remove u store.set }) ops,
    contains-set_remove u v store.set,
    key.same_iff u v,
  )
