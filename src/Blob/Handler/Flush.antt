-- ===== src/Blob/Handler/Flush.antt =====
-- A handler of protocols/owlnest-blob whose sends succeed sends all that waits in one poll.
use mathlib.Core.List.{append-nil}
use Prim.Native.Nat.{suc}
use owl_nest.Base.{
  ℕ, ◌≡◌, refl, sym, ◌∙◌, ap, Option, some, none, List, [], ◌∷◌, ◌++◌, map, arith, length,
}
use owl_nest.Blob.Types.{FromBehaviourEvent}
use owl_nest.Blob.Wire.{Prost}
use owl_nest.Blob.Handler.{
  Handler, Stream, Sending, SendType, SendPoll, sent, progress_outbound, on_sent, poll_busy,
  poll_outbound, idle, HandlerEvent,
}
use owl_nest.Blob.Handler.Queueing.{
  message, started_message, messages, on_sent-messages, poll_outbound-messages,
}

-- A send that ends well: the stream comes back, with the time it took.
abbrev pub succeeded : Stream × ℕ → SendPoll
succeeded (stream, rtt) = sent stream rtt

-- Nothing waits, nothing is under way and nothing is told to the swarm.
abbrev pub Flushed : Option HandlerEvent × Handler → Type 0
Flushed (event, h) =
    (event ≡ none)
    × (h.pending_in_events ≡ [])
    × ((stream : Stream) × (h.outbound ≡ some (idle stream)))

module _ (prost : Prost) where
  poll_busy-Flushed :
      (answers : List (Stream × ℕ)) (h : Handler) (s : Sending) (t : SendType)
      → length answers ≡ suc (length h.pending_in_events)
      → Flushed (poll_busy prost (map succeeded answers) h s t)
  unfolding poll_busy progress_outbound
  poll_busy-Flushed [] h s t n = absurd (ground arith)
  poll_busy-Flushed ((stream, rtt) ∷ answers) h s t n =
      rest h.pending_in_events (on_sent-messages prost t rtt h).1 n
        (λ h' s' t' n'. poll_busy-Flushed answers h' s' t' n')
    where
      rest :
          (evs : List FromBehaviourEvent)
          → (on_sent prost t rtt h).pending_in_events ≡ evs
          → suc (length answers) ≡ suc (length evs)
          → ((h' : Handler) (s' : Sending) (t' : SendType)
              → length answers ≡ suc (length h'.pending_in_events)
              → Flushed (poll_busy prost (map succeeded answers) h' s' t'))
          → Flushed (poll_busy prost (map succeeded ((stream, rtt) ∷ answers)) h s t)
      rest [] e n ih = rw (e, poll_busy) (refl, e, (stream, refl))
      rest (ev ∷ evs) e n ih = rw (e, poll_busy) (ih _ _ _ (omega arith))

  poll_outbound-Flushed :
      (evs : List FromBehaviourEvent) (answers : List (Stream × ℕ)) (stream : Stream) (h : Handler)
      → h.pending_in_events ≡ evs
      → h.outbound ≡ some (idle stream)
      → length answers ≡ length evs
      → Flushed (poll_outbound prost (map succeeded answers) h)
  unfolding poll_outbound progress_outbound
  poll_outbound-Flushed [] answers stream h f e n = rw (e, f, poll_outbound) (refl, f, (stream, e))
  poll_outbound-Flushed (ev ∷ evs) answers stream h f e n =
      rw (e, f, poll_outbound) (poll_busy-Flushed answers _ _ _ n)

  all_started :
      (h : Handler)
      → h.pending_in_events ≡ []
      → map (started_message prost) h.started ≡ messages prost h
  all_started h e =
      sym (append-nil _)
      ∙ ap (λ evs. map (started_message prost) h.started ++ map (message prost) evs) (sym e)

  -- If the stream is idle and there is a send that ends well for each waiting request, one call of
  -- poll_outbound leaves no request waiting and the stream idle, and has started the sends of all of
  -- their messages, in order, after those started before.
  pub all_sent_in_order :
      (answers : List (Stream × ℕ)) (stream : Stream) (h : Handler)
      → h.outbound ≡ some (idle stream)
      → length answers ≡ length h.pending_in_events
      → Flushed (poll_outbound prost (map succeeded answers) h)
        × (map (started_message prost) (poll_outbound prost (map succeeded answers) h).1.started
            ≡ map (started_message prost) h.started ++ map (message prost) h.pending_in_events)
  all_sent_in_order answers stream h e n =
      let flushed = poll_outbound-Flushed h.pending_in_events answers stream h refl e n in
      (
        flushed,
        all_started (poll_outbound prost (map succeeded answers) h).1 flushed.1
            ∙ poll_outbound-messages prost (map succeeded answers) h,
      )
