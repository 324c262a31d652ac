-- ===== src/Memcache/Examples.antt =====
-- Runs of the stores of memcache at concrete inputs, and their theorems there.
use owl_nest.Base.{
  ℕ, ◌≡◌, refl, String, Bool, none, some, List, [], ◌∷◌, text_key, nat_key, ◌==◌, ◌+◌, contains,
  set_insert, set_remove,
}
use owl_nest.Base.Table.{get, empty, insert}
use owl_nest.Memcache.{
  MapOps, get_single, lookup, set, try_insert, delete, inserted, found_value, modified, deleted,
  failed, new, handle_op, serve, SetOps, new_set, serve_set, handle_ops,
}
use owl_nest.Memcache.MapSpec.{Serves, serve-Serves}
use owl_nest.Memcache.SetCount.{answered, is_inserted, is_deleted, serve_set-Balance}

-- The operations of the test in memcache/src/lib.rs: two clients and one store. A pattern is a text
-- that matches itself.
abbrev ops : List (MapOps String String)
ops =
    try_insert "ping" "PONG" 1
    ∷ try_insert "ping" "PONG" 2
    ∷ try_insert "123" "abc" 3
    ∷ get_single "123" 4
    ∷ set "123" "def" 5
    ∷ get_single "123" 6
    ∷ delete "ping" 7
    ∷ []

abbrev same_text : String → String → Bool
same_text p k = p == k

answers_test :
    (serve same_text new ops).0
    ≡ (1, inserted)
      ∷ (2, failed)
      ∷ (3, inserted)
      ∷ (4, found_value (some "abc"))
      ∷ (5, modified "abc")
      ∷ (6, found_value (some "def"))
      ∷ (7, deleted "PONG")
      ∷ []
unfolding serve get insert handle_op empty
answers_test = refl

serve-Serves_example :
    Serves same_text
      (λ j. none)
      (lookup "ping" 8 ∷ ops)
      (serve same_text new (lookup "ping" 8 ∷ ops)).0
      (get (serve same_text new (lookup "ping" 8 ∷ ops)).1.map)
unfolding get empty
serve-Serves_example = serve-Serves same_text new (lookup "ping" 8 ∷ ops)

-- Three clients insert 5 and one deletes it.
abbrev set_ops : List (SetOps ℕ)
set_ops =
    SetOps.try_insert 5 1
    ∷ SetOps.try_insert 5 2
    ∷ SetOps.delete 5 3
    ∷ SetOps.try_insert 5 4
    ∷ SetOps.find 5 5
    ∷ []

serve_set-Balance_example :
    answered is_inserted 5 set_ops (serve_set new_set set_ops).0 + 0
    ≡ answered is_deleted 5 set_ops (serve_set new_set set_ops).0 + 1
unfolding serve_set contains handle_ops set_insert set_remove
serve_set-Balance_example = serve_set-Balance 5 new_set set_ops
