-- ===== src/Select/Behaviours/Runs.antt =====
-- A run of the behaviour of the node and the runs of its protocols' behaviours:
-- owlnest-macro/src/behaviour_select.rs.
use mathlib.Core.Path.{fun_ext}
use owl_nest.Base.{◌≡◌, refl, sym, ◌∙◌, ap, Option, none, some, List, [], ◌∷◌, ◌++◌}
use owl_nest.Blob.Types.{Run, done, panicked, stuck, ◌>>=◌}
use owl_nest.Select.{OneOf, Member, here, there, field}
use owl_nest.Select.Behaviours.{
  NetworkBehaviour, uncovered, States, Ready, poll, on_connection_handler_event, on_swarm_event,
}
use owl_nest.Select.Behaviours.Steps.{
  Input, step, OwnReady, own_step, own_input, both_ready, all_ready, own_result, AllGoOn,
  step-AllGoOn,
}

-- What the node was ready with after each input, and its last state.
unfoldable pub run :
    (bs : List NetworkBehaviour)
    → States bs
    → List (Input (OneOf NetworkBehaviour.FromHandler bs))
    → Run (List (Ready bs) × States bs)
unfolding poll on_connection_handler_event on_swarm_event
run bs all [] = done ([], all)
run bs all (i ∷ is) = do x ← step bs all i; y ← run bs x.1 is; done (x.0 ∷ y.0, y.1)

-- The same of one protocol by itself.
unfoldable pub own_run :
    (b : NetworkBehaviour)
    → b.State
    → List (Option (Input b.FromHandler))
    → List (OwnReady b) × b.State
own_run b s [] = ([], s)
own_run b s (i ∷ is) =
    let first = own_step b s i in let later = own_run b first.1 is in (first.0 ∷ later.0, later.1)

-- What the inputs of the node are to one protocol, each in the state that the node has come to.
unfoldable pub own_inputs :
    {b : NetworkBehaviour} {bs : List NetworkBehaviour}
    → Member b bs
    → States bs
    → List (Input (OneOf NetworkBehaviour.FromHandler bs))
    → List (Option (Input b.FromHandler))
own_inputs m all [] = []
own_inputs {bs = bs} m all (i ∷ is) =
    own_input m all i
    ∷ elim (step bs all i) [ done x ↦ own_inputs m x.1 is | panicked ↦ [] | stuck ↦ [] ]

-- Answers of all protocols to the same inputs, put together one by one.
abbrev pub zip_ready :
    (b : NetworkBehaviour) (bs : List NetworkBehaviour)
    → List (OwnReady b)
    → List (Ready bs)
    → List (Ready (b ∷ bs))
zip_ready b bs (x ∷ xs) (y ∷ ys) = both_ready b bs x y ∷ zip_ready b bs xs ys
zip_ready b bs _ _ = []

abbrev pub silence : {A : Type 0} → List A → List (Ready [])
silence [] = []
silence (i ∷ is) = none ∷ silence is

abbrev pub together :
    {A : Type 0} (bs : List NetworkBehaviour)
    → List A
    → ((b : NetworkBehaviour) → Member b bs → List (OwnReady b))
    → List (Ready bs)
together [] is each = silence is
together (b ∷ bs) is each = zip_ready b bs (each b here) (together bs is (λ c m. each c (there m)))

-- The run of one protocol by itself on its own inputs.
abbrev pub own_result_of :
    {bs : List NetworkBehaviour}
    → States bs
    → List (Input (OneOf NetworkBehaviour.FromHandler bs))
    → (b : NetworkBehaviour) → Member b bs
    → List (OwnReady b) × b.State
own_result_of all is b m = own_run b (field NetworkBehaviour.State m all) (own_inputs m all is)

-- How a run of the node has ended, given what the protocols' behaviours do by themselves.
abbrev pub RunGoesOn :
    (bs : List NetworkBehaviour)
    → States bs
    → List (Input (OneOf NetworkBehaviour.FromHandler bs))
    → Run (List (Ready bs) × States bs)
    → Type 1
RunGoesOn bs all is (done (rs, all')) =
    ((b : NetworkBehaviour) (m : Member b bs)
      → (own_result_of all is b m).1 ≡ field NetworkBehaviour.State m all')
    × (rs ≡ together bs is (λ b m. (own_result_of all is b m).0))
RunGoesOn bs all is panicked =
    (b : NetworkBehaviour) × (m : Member b bs) × (before : List (OwnReady b)) × ((own_result_of all
        is b m).0
      ≡ before ++ some uncovered ∷ [])
RunGoesOn bs all is stuck = (b : NetworkBehaviour) × (m : Member b bs) × ⊥

together-first :
    {A : Type 0} (bs : List NetworkBehaviour) (i : A) (is : List A)
    (first : (b : NetworkBehaviour) → Member b bs → OwnReady b)
    (later : (b : NetworkBehaviour) → Member b bs → List (OwnReady b))
    → together bs (i ∷ is) (λ b m. first b m ∷ later b m)
      ≡ all_ready bs first ∷ together bs is later
together-first [] i is first later = refl
together-first (b ∷ bs) i is first later =
    ap (zip_ready b bs (first b here ∷ later b here))
      (together-first bs i is (λ c m. first c (there m)) (λ c m. later c (there m)))

together-nil :
    (A : Type 0) (bs : List NetworkBehaviour)
    {each : (b : NetworkBehaviour) → Member b bs → List (OwnReady b)}
    → ((b : NetworkBehaviour) (m : Member b bs) → each b m ≡ [])
    → together {A = A} bs [] each ≡ []
together-nil A [] quiet = refl
together-nil A (b ∷ bs) quiet = rw (quiet b here) refl

module _ (bs : List NetworkBehaviour) (all : States bs)
    (i : Input (OneOf NetworkBehaviour.FromHandler bs))
    (is : List (Input (OneOf NetworkBehaviour.FromHandler bs))) where
  -- A protocol's run goes on from the state that the first input leaves.
  own_result_of-step :
      (r : Ready bs) (all' : States bs) (b : NetworkBehaviour) (m : Member b bs)
      → step bs all i ≡ done (r, all')
      → (own_result all i b m).1 ≡ field NetworkBehaviour.State m all'
      → own_result_of all (i ∷ is) b m
        ≡ ((own_result all i b m).0 ∷ (own_result_of all' is b m).0, (own_result_of all' is b m).1)
  unfolding own_run own_inputs
  own_result_of-step r all' b m first comes = rw (first, comes) refl

  own_result_of-panicked :
      (b : NetworkBehaviour) (m : Member b bs)
      → step bs all i ≡ panicked
      → (own_result_of all (i ∷ is) b m).0 ≡ (own_result all i b m).0 ∷ []
  unfolding own_run own_inputs
  own_result_of-panicked b m first = rw first refl

  after_rest :
      (r : Ready bs) (all' : States bs) (rest : Run (List (Ready bs) × States bs))
      → step bs all i ≡ done (r, all')
      → AllGoOn bs all i (done (r, all'))
      → RunGoesOn bs all' is rest
      → RunGoesOn bs all (i ∷ is) (rest >>= λ y. done (r ∷ y.0, y.1))
  after_rest r all' (done (rs, last)) first (comes, ready) (go, e) = (
    λ b m. ap (λ x. x.1) (own_result_of-step r all' b m first (comes b m)) ∙ go b m,
    ap (◌∷◌ r) e
        ∙ ap (λ x. x ∷ together bs is (λ b m. (own_result_of all' is b m).0)) ready
        ∙ sym (
            together-first bs i is (λ b m. (own_result all i b m).0)
              (λ b m. (own_result_of all' is b m).0))
        ∙ ap (together bs (i ∷ is)) (
            fun_ext (λ b.
              fun_ext
                (λ m. ap (λ x. x.0) (sym (own_result_of-step r all' b m first (comes b m)))))),
  )
  after_rest r all' panicked first (comes, ready) (b, m, before, unknown) = (
    b,
    m,
    (own_result all i b m).0 ∷ before,
    ap (λ x. x.0) (own_result_of-step r all' b m first (comes b m))
        ∙ ap (◌∷◌ ((own_result all i b m).0)) unknown,
  )
  after_rest r all' stuck first go (b, m, never) = absurd never

  after_step :
      (first : Run (Ready bs × States bs)) (rest : States bs → Run (List (Ready bs) × States bs))
      → step bs all i ≡ first
      → AllGoOn bs all i first
      → ((all' : States bs) → RunGoesOn bs all' is (rest all'))
      → RunGoesOn bs all (i ∷ is) (first >>= λ x. rest x.1 >>= λ y. done (x.0 ∷ y.0, y.1))
  after_step (done (r, all')) rest first go more =
      after_rest r all' (rest all') first go (more all')
  after_step panicked rest first (b, m, unknown) more =
      (b, m, [], own_result_of-panicked b m first ∙ ap (λ x. x ∷ []) unknown)
  after_step stuck rest first go more = go

pub run-RunGoesOn :
    (bs : List NetworkBehaviour) (is : List (Input (OneOf NetworkBehaviour.FromHandler bs)))
    (all : States bs)
    → RunGoesOn bs all is (run bs all is)
unfolding run own_run own_inputs
run-RunGoesOn bs [] all = (
  λ b m. refl,
  sym (together-nil (Input (OneOf NetworkBehaviour.FromHandler bs)) bs (λ b m. refl)),
)
run-RunGoesOn bs (i ∷ is) all =
    after_step bs all i is (step bs all i) (λ all'. run bs all' is) refl (step-AllGoOn bs all i)
      (λ all'. run-RunGoesOn bs is all')
