-- ===== src/Hyper/Runs.antt =====
-- What becomes of the requests that the behaviour of owlnest-hyper passes to a handler.
use mathlib.Core.List.{append_assoc, append-nil}
use mathlib.Core.Path.{subst}
use owl_nest.Base.{◌≡◌, refl, sym, ◌∙◌, ap, Option, List, [], ◌∷◌, ◌++◌}
use owl_nest.Blob.Types.{Run, done, panicked, stuck, ◌>>=◌}
use owl_nest.Hyper.{
  FromBehaviourEvent, Handler, HandlerEvent, Round, poll, on_behaviour_event, new, ConnectionEvent,
  on_connection_event,
}
use owl_nest.Hyper.Requests.{Comes, Unsent, poll-Unsent, on_connection_event-Unsent}

-- A poll may turn its loop as often as there are rounds, which are two at least.
pub data Input : Type 0 where
  asked : FromBehaviourEvent → Input
  connected : ConnectionEvent → Input
  polled : Round → Round → List Round → Input

-- The requests among the inputs.
abbrev pub asked_for : List Input → List FromBehaviourEvent
asked_for [] = []
asked_for (asked ev ∷ is) = ev ∷ asked_for is
asked_for (connected ev ∷ is) = asked_for is
asked_for (polled r r' rest ∷ is) = asked_for is

asked_for-cons :
    (i : Input) (is : List Input) → asked_for (i ∷ []) ++ asked_for is ≡ asked_for (i ∷ is)
asked_for-cons (asked ev) is = refl
asked_for-cons (connected ev) is = refl
asked_for-cons (polled r r' rest) is = refl

abbrev pub step : Input → Handler → Run Handler
step (asked ev) h = done (on_behaviour_event h ev)
step (connected ev) h = on_connection_event h ev
step (polled r r' rest) h = do (event, h') ← poll (r ∷ r' ∷ rest) h; done h'

unfoldable pub run : List Input → Handler → Run Handler
run [] h = done h
run (i ∷ is) h = do h' ← step i h; run is h'

step-Unsent :
    (i : Input) (h : Handler) (evs : List FromBehaviourEvent)
    → Unsent evs h
    → Comes (Unsent (evs ++ asked_for (i ∷ []))) (step i h)
unfolding on_behaviour_event
step-Unsent (asked ev) h evs u = (ap (λ xs. xs ++ ev ∷ []) u.0, u.1, u.2)
step-Unsent (connected ev) h evs u =
    subst (λ xs. Comes (Unsent xs) (on_connection_event h ev)) (sym (append-nil evs))
      (on_connection_event-Unsent evs h ev u)
step-Unsent (polled r r' rest) h evs u =
    subst (λ xs. Comes (Unsent xs) (step (polled r r' rest) h)) (sym (append-nil evs))
      (only_handler (poll (r ∷ r' ∷ rest) h) (poll-Unsent evs r r' rest h u))
  where
    only_handler :
        (r : Run (Option HandlerEvent × Handler))
        → Comes (λ x. Unsent evs x.1) r
        → Comes (Unsent evs) (r >>= λ x. done x.1)
    only_handler (done x) u' = u'
    only_handler panicked u' = tt
    only_handler stuck u' = u'

run-Unsent :
    (is : List Input) (h : Handler) (evs : List FromBehaviourEvent)
    → Unsent evs h
    → Comes (Unsent (evs ++ asked_for is)) (run is h)
unfolding run
run-Unsent [] h evs u = subst (λ xs. Unsent xs h) (sym (append-nil evs)) u
run-Unsent (i ∷ is) h evs u =
    subst (λ xs. Comes (Unsent xs) (run (i ∷ is) h))
      (append_assoc evs _ _ ∙ ap (◌++◌ evs) (asked_for-cons i is))
      (rest (step i h) (step-Unsent i h evs u)
        λ h' u'. run-Unsent is h' (evs ++ asked_for (i ∷ [])) u')
  where
    rest :
        (r : Run Handler)
        → Comes (Unsent (evs ++ asked_for (i ∷ []))) r
        → ((h' : Handler)
            → Unsent (evs ++ asked_for (i ∷ [])) h'
            → Comes (Unsent ((evs ++ asked_for (i ∷ [])) ++ asked_for is)) (run is h'))
        → Comes (Unsent ((evs ++ asked_for (i ∷ [])) ++ asked_for is)) (r >>= run is)
    rest (done h') u' all = all h' u'
    rest panicked u' all = tt
    rest stuck u' all = u'

-- From a new handler, any requests, connection events and polls, of whose loop two turns are enough,
-- come to an end, and unless they panic every request that the behaviour passed to the handler still
-- waits, in order, and none was started.
pub run-new-Unsent : (is : List Input) → Comes (Unsent (asked_for is)) (run is new)
unfolding new
run-new-Unsent is = run-Unsent is new [] (refl, refl, refl)
