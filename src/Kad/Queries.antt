-- ===== src/Kad/Queries.antt =====
-- The results of a query of kad.rs, among those of the other queries.
use mathlib.Core.List.{append_assoc, append-nil}
use owl_nest.Base.{
  ◌≡◌, refl, sym, ap, ◌∙◌, true, false, List, [], ◌∷◌, ◌++◌, nat_key, ◌==◌, if◌then◌else◌,
  Bool-cases, inl, inr,
}
use owl_nest.Blob.Types.{done}
use owl_nest.Kad.{
  QueryId, Received, routing_updated, outbound_query_progressed, other, error, collect, query,
}

module _ {QueryResult Addresses : Type 0} where
  -- Events without an error and without the last step of a query.
  abbrev pub GoesOn : QueryId → List (Received QueryResult Addresses) → Type 0
  GoesOn id [] = Unit
  GoesOn id (error ∷ events) = ⊥
  GoesOn id (outbound_query_progressed j r last ∷ events) =
      (if id == j then last else false) ≡ false × GoesOn id events
  GoesOn id (routing_updated peer a ∷ events) = GoesOn id events
  GoesOn id (other ∷ events) = GoesOn id events

  -- The results of a query, in order.
  abbrev pub results_of : QueryId → List (Received QueryResult Addresses) → List QueryResult
  results_of id [] = []
  results_of id (outbound_query_progressed j r last ∷ events) =
      let others = results_of id events in if id == j then r ∷ others else others
  results_of id (routing_updated peer a ∷ events) = results_of id events
  results_of id (other ∷ events) = results_of id events
  results_of id (error ∷ events) = results_of id events

  collect-results :
      (id : QueryId) (before after : List (Received QueryResult Addresses)) (r : QueryResult)
      (sofar : List QueryResult)
      → GoesOn id before
      → collect QueryResult Addresses id
          (before ++ (outbound_query_progressed id r true ∷ after))
          sofar
        ≡ done ((sofar ++ results_of id before) ++ (r ∷ []))
  unfolding collect
  collect-results id [] after r sofar g =
      rw ((nat_key.same_iff id id).1 refl, append-nil sofar) refl
  collect-results id (routing_updated peer a ∷ before) after r sofar g =
      collect-results id before after r sofar g
  collect-results id (other ∷ before) after r sofar g = collect-results id before after r sofar g
  collect-results id (error ∷ before) after r sofar g = absurd g
  collect-results id (outbound_query_progressed j s last ∷ before) after r sofar (n, g) =
      elim (Bool-cases (id == j)) [
        | inl e ↦
            let goes_on : last ≡ false = ap (λ b. if b then last else false) (sym e) ∙ n in
            rw (e, goes_on)
              (collect-results id before after r (sofar ++ (s ∷ [])) g
                ∙ ap (λ xs. done (xs ++ (r ∷ [])))
                    (append_assoc sofar (s ∷ []) (results_of id before)))
        | inr e ↦ rw e (collect-results id before after r sofar g)
      ]

  -- A query whose last step comes before any error in the events ends, with exactly its own results,
  -- in order, whatever other queries and events come in between and afterwards.
  pub query-results :
      (id : QueryId) (before after : List (Received QueryResult Addresses)) (r : QueryResult)
      → GoesOn id before
      → query QueryResult Addresses id (before ++ (outbound_query_progressed id r true ∷ after))
        ≡ done (results_of id before ++ (r ∷ []))
  unfolding query
  query-results id before after r g = collect-results id before after r [] g
