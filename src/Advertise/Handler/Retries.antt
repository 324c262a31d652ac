-- ===== src/Advertise/Handler/Retries.antt =====
-- What a handler of owlnest-advertise does when a peer does not support the protocol.
use owl_nest.Base.{
  ℕ, String, zero, suc, Option-cases, inl, inr, ◌∙◌, ◌≡◌, refl, ap, true, false, Option, none, some,
  List, [], ◌∷◌, length,
}
use mathlib.Core.Logic.{◌⊎◌}
use owl_nest.Blob.Types.{Run, done, ◌>>=◌}
use owl_nest.Advertise.Handler.{
  Json, Packet, Handler, inactive, RecvPoll, SendPoll, HandlerEvent, outbound_substream_request,
  on_read, poll_inbound, poll_outbound, ask, pop_report, poll, dial_upgrade_error,
  on_connection_event, on_dial_upgrade_error,
}

outbound-on_read : (m : String ⊎ Packet) (h : Handler) → (on_read m h).outbound ≡ h.outbound
unfolding on_read
outbound-on_read (inl e) h = refl
outbound-on_read (inr packet) h = refl

module _ (json : Json) where
  -- Rounds of a negotiation that fails and a poll after it, with what the polls give.
  unfoldable pub rounds :
      List (RecvPoll × List SendPoll) → Handler → Run (List (Option HandlerEvent) × Handler)
  rounds [] h = done ([], h)
  rounds ((answer, answers) ∷ rest) h = do
    h' ← on_connection_event h (dial_upgrade_error true)
    (event, h'') ← done (poll json answer answers h')
    (events, h''') ← rounds rest h''
    done (event ∷ events, h''')

  outbound-poll_inbound :
      (answer : RecvPoll) (h : Handler) → (poll_inbound json answer h).outbound ≡ h.outbound
  unfolding poll_inbound
  outbound-poll_inbound RecvPoll.waiting h = elim (Option-cases h.inbound) [
    | inl e ↦ rw (e, poll_inbound)
    | inr (reading, e) ↦ rw (e, poll_inbound)
  ]
  outbound-poll_inbound (RecvPoll.broken x) h = elim (Option-cases h.inbound) [
    | inl e ↦ rw (e, poll_inbound)
    | inr (reading, e) ↦ rw (e, poll_inbound)
  ]
  outbound-poll_inbound (RecvPoll.received stream bytes) h = elim (Option-cases h.inbound) [
    | inl e ↦ rw (e, poll_inbound)
    | inr (reading, e) ↦ rw (e, poll_inbound) (outbound-on_read (json.from_slice bytes) _)
  ]

  -- A poll after the failure.
  asked :
      (answers : List SendPoll) (h : Handler)
      → h.outbound ≡ none
      → (pop_report json (poll_outbound json answers h)).0 ≡ some outbound_substream_request
  unfolding pop_report poll_outbound ask
  asked answers h e = rw (e, poll_outbound) refl

  poll-failed :
      (answer : RecvPoll) (answers : List SendPoll) (h : Handler)
      → h.state ≡ inactive false
      → h.outbound ≡ none
      → (poll json answer answers h).0 ≡ some outbound_substream_request
  unfolding poll
  poll-failed answer answers h e f =
      rw (e, poll)
        (asked answers (poll_inbound json answer (record h { state = inactive true }))
          (outbound-poll_inbound answer (record h { state = inactive true }) ∙ f))

  abbrev pub requests : ℕ → List (Option HandlerEvent)
  requests zero = []
  requests (suc n) = some outbound_substream_request ∷ requests n

  -- However often the negotiation of the protocol fails, the poll after each failure asks for another
  -- stream of it.
  pub rounds-requests :
      (polls : List (RecvPoll × List SendPoll)) (h : Handler)
      → (h' : Handler) × (rounds polls h ≡ done (requests (length polls), h'))
  unfolding rounds on_connection_event on_dial_upgrade_error
  rounds-requests [] h = (h, refl)
  rounds-requests ((answer, answers) ∷ rest) h =
      let failed = record h { outbound = none; state = inactive false } in
      let (h', e) = rounds-requests rest (poll json answer answers failed).1 in
      (
        h',
        rw (e, rounds)
            (ap (λ event. done (event ∷ requests (length rest), h'))
              (poll-failed answer answers failed refl refl)),
      )
