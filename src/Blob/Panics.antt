-- ===== src/Blob/Panics.antt =====
-- When the handling of a handler's report in protocols/owlnest-blob/src/behaviour.rs panics.
use owl_nest.Base.{ℕ, ◌≡◌, ◌↔◌, Option, none, some, nat_key, is_some, true, refl}
use owl_nest.Base.Table.{get}
use owl_nest.Blob.Types.{
  PeerId, World, Bytes, Run, done, panicked, stuck, ◌>>=◌, ToBehaviourEvent, OutEvent,
}
use owl_nest.Blob.State.{Behaviour, emit}
use owl_nest.Blob.Send.{pending_send_accepted}
use owl_nest.Blob.Recv.{progress_ongoing_recv}
use owl_nest.Blob.Behaviour.{on_connection_handler_event}
use owl_nest.Blob.Cases.{pending_send_accepted_cases, progress_ongoing_recv_cases}

-- The remote accepts a send that runs already and is not pending.
abbrev pub AcceptedAgain : Behaviour → ToBehaviourEvent → Type 0
AcceptedAgain b (ToBehaviourEvent.file_send_accepted id) =
    (get b.pending_send id ≡ none) × (is_some (get b.ongoing_send id) ≡ true)
AcceptedAgain b _ = ⊥

accepted_panics :
    (w : World) (b : Behaviour) (id : ℕ)
    → (pending_send_accepted w b id ≡ panicked)
      ↔ ((get b.pending_send id ≡ none) × (is_some (get b.ongoing_send id) ≡ true))
accepted_panics w b id =
    pending_send_accepted_cases
      (λ r.
        (r ≡ panicked)
        ↔ ((get b.pending_send id ≡ none) × (is_some (get b.ongoing_send id) ≡ true)))
      w b id (λ v e. ((λ p. cc), (λ q. cc (e, q.0)))) (λ v e f. ((λ p. (e, rw f)), (λ q. refl)))
      (λ e f. ((λ p. cc), (λ q. cc (f, q.1))))

progress_ongoing_recv-ne-panicked :
    (w : World) (b : Behaviour) (id : ℕ) (content : Bytes)
    → ¬ (progress_ongoing_recv w b id content ≡ panicked)
progress_ongoing_recv-ne-panicked w b id content =
    progress_ongoing_recv_cases (λ r. ¬ (r ≡ panicked)) w b id content (λ e p. cc) (λ v e z q p. cc)
      (λ v e z q p. cc) (λ v e z q p. cc) (λ v x e z q p. cc) (λ v c e z q p. cc)

then_panics :
    (id : ℕ) (r : Run (Option ℕ × Behaviour))
    → ((r >>= λ (x : Option ℕ × Behaviour). elim x.0 as (λ _. Run Behaviour) [
      | some total ↦ done (emit x.1 (OutEvent.send_progressed id 0 total))
      | none ↦ done x.1
    ])
        ≡ panicked)
      ↔ (r ≡ panicked)
then_panics id (done (some total, c)) = ((λ p. cc), (λ p. cc))
then_panics id (done (none, c)) = ((λ p. cc), (λ p. cc))
then_panics id panicked = ((λ p. refl), (λ p. refl))
then_panics id stuck = ((λ p. cc), (λ p. cc))

-- The behaviour panics on what a connection reports exactly when the remote accepts a send that is
-- ongoing already and no longer pending.
pub handler_event_panics :
    (w : World) (b : Behaviour) (peer : PeerId) (ev : ToBehaviourEvent)
    → (on_connection_handler_event w b peer ev ≡ panicked) ↔ AcceptedAgain b ev
unfolding on_connection_handler_event
handler_event_panics w b peer (ToBehaviourEvent.file_send_accepted id) = (
  (λ p. (accepted_panics w b id).0 ((then_panics id (pending_send_accepted w b id)).0 p)),
  (λ q. (then_panics id (pending_send_accepted w b id)).1 ((accepted_panics w b id).1 q)),
)
handler_event_panics w b peer (ToBehaviourEvent.recv_progressed id content) =
    ((λ p. progress_ongoing_recv-ne-panicked w b id content p), (λ q. absurd q))
handler_event_panics w b peer _ = ((λ p. cc), (λ q. absurd q))
