-- ===== src/Messaging/Handler/Runs.antt =====
-- What becomes of the requests to a handler of protocols/owlnest-messaging while it lives.
use mathlib.Core.Path.{subst}
use mathlib.Core.List.{append_assoc, append-nil, map-append}
use owl_nest.Base.{◌≡◌, refl, sym, ◌∙◌, ap, true, false, none, List, [], ◌∷◌, ◌++◌}
use owl_nest.Blob.Types.{Run, done, panicked, stuck, ◌>>=◌}
use owl_nest.Blob.Invariant.Formed.{Ends}
use owl_nest.Messaging.{Bytes, Callback, Config, Message, FromBehaviourEvent}
use owl_nest.Messaging.Handler.{
  Handler, RecvPoll, SendPoll, on_behaviour_event, poll, ConnectionEvent, fully_negotiated_inbound,
  fully_negotiated_outbound, address_change, dial_upgrade_error, protocols_change, uncovered,
  on_dial_upgrade_error, on_connection_event, new,
}
use owl_nest.Messaging.Handler.Callbacks.{
  requester, callbacks, poll-callbacks, replace_outbound-callbacks,
}

pub data Input : Type 0 where
  request : FromBehaviourEvent → Input
  connected : ConnectionEvent → Input
  polled : RecvPoll → List SendPoll → Input

-- The callbacks of the requests among the inputs.
abbrev pub requested : List Input → List Callback
requested [] = []
requested (request ev ∷ is) = requester ev ∷ requested is
requested (connected ev ∷ is) = requested is
requested (polled answer answers ∷ is) = requested is

module _ (to_vec : Message → Bytes) where
  abbrev pub step : Input → Handler → Run Handler
  step (request ev) h = done (on_behaviour_event h ev)
  step (connected ev) h = on_connection_event h ev
  step (polled answer answers) h = done (poll to_vec answer answers h).1

  unfoldable pub run : List Input → Handler → Run Handler
  run [] h = done h
  run (i ∷ is) h = do h' ← step i h; run is h'

  on_connection_event-callbacks :
      (h : Handler) (ev : ConnectionEvent)
      → Ends (λ h'. callbacks h' ≡ callbacks h) (on_connection_event h ev)
  unfolding on_connection_event on_dial_upgrade_error
  on_connection_event-callbacks h (fully_negotiated_inbound stream) = refl
  on_connection_event-callbacks h (fully_negotiated_outbound stream) =
      replace_outbound-callbacks h _ refl
  on_connection_event-callbacks h (dial_upgrade_error true) = replace_outbound-callbacks h none refl
  on_connection_event-callbacks h (dial_upgrade_error false) =
      replace_outbound-callbacks h none refl
  on_connection_event-callbacks h address_change = refl
  on_connection_event-callbacks h protocols_change = refl
  on_connection_event-callbacks h uncovered = tt

  on_behaviour_event-callbacks :
      (h : Handler) (ev : FromBehaviourEvent)
      → callbacks (on_behaviour_event h ev) ≡ callbacks h ++ requester ev ∷ []
  unfolding on_behaviour_event
  on_behaviour_event-callbacks h ev = simp (map-append, append_assoc)

  run_after :
      (is : List Input) (h h' : Handler) (more : List Callback)
      → callbacks h' ≡ callbacks h ++ more
      → Ends (λ x. callbacks x ≡ callbacks h' ++ requested is) (run is h')
      → Ends (λ x. callbacks x ≡ callbacks h ++ (more ++ requested is)) (run is h')
  run_after is h h' more e =
      subst (λ known. Ends (λ x. callbacks x ≡ known) (run is h'))
        (ap (λ cs. cs ++ requested is) e ∙ append_assoc (callbacks h) more (requested is))

  run-callbacks :
      (is : List Input) (h : Handler)
      → Ends (λ x. callbacks x ≡ callbacks h ++ requested is) (run is h)
  unfolding run
  run-callbacks [] h = sym (append-nil _)
  run-callbacks (request ev ∷ is) h =
      run_after is h (on_behaviour_event h ev) (requester ev ∷ [])
        (on_behaviour_event-callbacks h ev) (run-callbacks is (on_behaviour_event h ev))
  run-callbacks (polled answer answers ∷ is) h =
      let h' = (poll to_vec answer answers h).1 in
      run_after is h h' [] (poll-callbacks to_vec answer answers h ∙ sym (append-nil _))
        (run-callbacks is h')
  run-callbacks (connected ev ∷ is) h =
      rest (on_connection_event h ev) (on_connection_event-callbacks h ev)
        (λ h'. run-callbacks is h')
    where
      rest :
          (r : Run Handler)
          → Ends (λ h'. callbacks h' ≡ callbacks h) r
          → ((h' : Handler) → Ends (λ x. callbacks x ≡ callbacks h' ++ requested is) (run is h'))
          → Ends (λ x. callbacks x ≡ callbacks h ++ requested is) (r >>= run is)
      rest (done h') e all = run_after is h h' [] (e ∙ sym (append-nil _)) (all h')
      rest panicked e all = tt
      rest stuck e all = tt

  -- From a new handler, after any requests, connection events and polls without an uncovered event,
  -- the callbacks that were settled, then the one whose message is being sent, then those that wait,
  -- are the callbacks of all requests in order: none is lost, doubled or overtaken.
  pub run-new-callbacks :
      (config : Config) (is : List Input)
      → Ends (λ h. callbacks h ≡ requested is) (run is (new config))
  unfolding new
  run-new-callbacks config is = run-callbacks is (new config)
