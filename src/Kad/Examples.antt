-- ===== src/Kad/Examples.antt =====
-- Two queries at once on the handle of kad.rs.
use owl_nest.Base.{nat_key, ℕ, ◌≡◌, refl, String, true, false, some, List, [], ◌∷◌, ◌++◌}
use owl_nest.Base.Table.{empty, get, insert}
use owl_nest.Blob.Types.{done}
use owl_nest.Kad.{
  Received, routing_updated, outbound_query_progressed, query, collect, listen, lookup,
}
use owl_nest.Kad.Queries.{query-results}

abbrev before : List (Received String ℕ)
before =
    outbound_query_progressed 2 "a" false
    ∷ outbound_query_progressed 1 "b" false
    ∷ routing_updated 7 3
    ∷ outbound_query_progressed 2 "c" true
    ∷ routing_updated 7 4
    ∷ []

abbrev after : List (Received String ℕ)
after = outbound_query_progressed 1 "e" false ∷ []

query_test :
    query String ℕ 1 (before ++ (outbound_query_progressed 1 "d" true ∷ after))
    ≡ done ("b" ∷ "d" ∷ [])
unfolding query collect
query_test = refl

lookup_test : lookup String ℕ 7 (listen String ℕ before empty) ≡ some 4
unfolding lookup listen get insert empty
lookup_test = refl

query-results_example :
    query String ℕ 1 (before ++ (outbound_query_progressed 1 "d" true ∷ after))
    ≡ done ("b" ∷ "d" ∷ [])
query-results_example = query-results 1 before after "d" (refl, (refl, (refl, tt)))
