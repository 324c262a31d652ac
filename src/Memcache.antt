-- ===== src/Memcache.antt =====
-- memcache/src/store.rs and manager.rs: a map and a set that one task owns and that its clients use
-- by messages. A callback is a number, and answering is a value.
pub mod MapSpec
pub mod SetCount
pub mod Examples
use owl_nest.Base.{
  ℕ, String, Bool, true, false, Option, none, some, List, [], ◌∷◌, text_key, nat_key, Key, contains,
  set_insert, set_remove, if◌then◌else◌,
}
use owl_nest.Base.Table.{Table, empty, get, insert, remove, retain, is_empty}

abbrev pub Callback : Type 0
Callback = ℕ

-- `Regex` is the type of the patterns.
pub data MapOps (V Regex : Type 0) : Type 0 where
  get_single : String → Callback → MapOps V Regex
  get_all : Callback → MapOps V Regex
  lookup : Regex → Callback → MapOps V Regex
  set : String → V → Callback → MapOps V Regex
  try_insert : String → V → Callback → MapOps V Regex
  delete : String → Callback → MapOps V Regex

pub data MapResult (V : Type 0) : Type 0 where
  inserted : MapResult V
  found_value : Option V → MapResult V
  found_kv : Option (Table String V) → MapResult V
  modified : V → MapResult V
  deleted : V → MapResult V
  failed : MapResult V

-- The receiving end of the channel is the list of operations that `serve` is given.
pub record MapStore (V : Type 0) : Type 0 where
  pub map : Table String V

abbrev pub new : {V : Type 0} → MapStore V
new = record { map = empty }

module _ {V Regex : Type 0} where
  -- `is_match` is the method of the crate regex.
  module _ (is_match : Regex → String → Bool) where
    -- What is sent, on which callback, and the store afterwards.
    unfoldable pub handle_op : MapStore V → MapOps V Regex → (Callback × MapResult V) × MapStore V
    handle_op store (set k v tx) = (
      (tx, elim (get store.map k) [ some old ↦ modified old | none ↦ inserted ]),
      record { map = insert store.map k v },
    )
    handle_op store (try_insert k v tx) = elim (get store.map k) [
      | some old ↦ ((tx, failed), store)
      | none ↦ ((tx, inserted), record { map = insert store.map k v })
    ]
    handle_op store (delete k tx) = (
      (tx, elim (get store.map k) [ some old ↦ deleted old | none ↦ failed ]),
      record { map = remove store.map k },
    )
    handle_op store (get_single k tx) = ((tx, found_value (get store.map k)), store)
    handle_op store (lookup pattern tx) =
        let map = retain (λ k v. is_match pattern k) store.map in
        ((tx, if is_empty map then found_kv none else found_kv (some map)), store)
    handle_op store (get_all tx) = ((tx, found_kv (some store.map)), store)

    -- The task that `MapManager::new` spawns: it handles what comes through the channel, in order.
    unfoldable pub serve :
        MapStore V → List (MapOps V Regex) → List (Callback × MapResult V) × MapStore V
    serve store [] = ([], store)
    serve store (op ∷ ops) =
        let (reply, store') = handle_op store op in
        let (replies, store'') = serve store' ops in (reply ∷ replies, store'')

pub data SetOps (T : Type 0) : Type 0 where
  find : T → Callback → SetOps T
  try_insert : T → Callback → SetOps T
  delete : T → Callback → SetOps T
  dump : Callback → SetOps T

pub data SetResult (T : Type 0) : Type 0 where
  inserted : SetResult T
  failed : SetResult T
  deleted : SetResult T
  found : SetResult T
  not_found : SetResult T
  dumped : List T → SetResult T

pub record SetStore (T : Type 0) : Type 0 where
  pub set : List T

module _ {T : Type 0} ⦃key : Key T⦄ where
  abbrev pub new_set : SetStore T
  new_set = record { set = [] }

  unfoldable pub handle_ops : SetStore T → SetOps T → (Callback × SetResult T) × SetStore T
  handle_ops store (find v tx) = ((tx, if contains v store.set then found else not_found), store)
  handle_ops store (dump tx) = ((tx, dumped store.set), store)
  handle_ops store (try_insert v tx) = (
    (tx, if contains v store.set then failed else inserted),
    record { set = set_insert v store.set },
  )
  handle_ops store (delete v tx) = (
    (tx, if contains v store.set then deleted else failed),
    record { set = set_remove v store.set },
  )

  -- A task that handles what comes through the channel, in order.
  unfoldable pub serve_set :
      SetStore T → List (SetOps T) → List (Callback × SetResult T) × SetStore T
  serve_set store [] = ([], store)
  serve_set store (op ∷ ops) =
      let (reply, store') = handle_ops store op in
      let (replies, store'') = serve_set store' ops in (reply ∷ replies, store'')
