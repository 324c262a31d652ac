-- ===== src/Blob/Front/Cancels.antt =====
-- What `cancel_send` and `cancel_recv` of owlnest/src/net/p2p/protocols/blob.rs give back, against what
-- an `Ok(())` of theirs promises: that no more bytes are sent, or written.
use owl_nest.Base.{Result, ok, err}
use owl_nest.Base.{
  ℕ, ◌≡◌, ◌≢◌, refl, ap, Bool, true, false, ◌||◌, none, some, List, [], ◌∷◌, ◌++◌, is_some, nat_key,
  ◌==◌, if◌then◌else◌, arith,
}
use owl_nest.Base.Table.{get}
use owl_nest.Blob.Types.{
  Callback, CancellationError, id_not_found, notify_handler, local_cancel_recv, Reply, cancelled,
  cancel_failed, World, done, Returns,
}
use owl_nest.Blob.State.{Behaviour, OngoingFileRecv}
use owl_nest.Blob.Send.{progress_ongoing_send, cancel_send_by_local_send_id}
use owl_nest.Blob.Recv.{cancel_recv_by_local_recv_id}
use owl_nest.Blob.Behaviour.{push_event, answer_cancel}
use owl_nest.Blob.Cases.{cancel_send_cases, cancel_recv_cases}
use owl_nest.Blob.Cancel.{cancel_send_stops, no_progress, cancel_ongoing_recv_drops_other}
use owl_nest.Blob.Invariant.Formed.{WellFormed}
use owl_nest.Blob.Front.{answered, cancel_answer, await_cancel, cancel_send, cancel_recv}

pub cancel_answer-append :
    (c : Callback) (rs : List Reply) (r : Reply)
    → cancel_answer c rs ≡ none
    → cancel_answer c (rs ++ r ∷ []) ≡ cancel_answer c (r ∷ [])
unfolding cancel_answer
cancel_answer-append c [] r e = refl
cancel_answer-append c (cancelled k ∷ rs) r e = ground (arith, cancel_answer-append c rs r)
cancel_answer-append c (cancel_failed k x ∷ rs) r e = ground (arith, cancel_answer-append c rs r)
cancel_answer-append c (_ ∷ rs) r e = cancel_answer-append c rs r e

-- The answer for a cancellation that found its transfer or not.
abbrev pub cancel_result : Bool → Result CancellationError (Unit {0})
cancel_result true = ok tt
cancel_result false = err id_not_found

-- The reply that carries it.
abbrev pub cancel_reply : Callback → Bool → Reply
cancel_reply callback true = cancelled callback
cancel_reply callback false = cancel_failed callback id_not_found

abbrev pub with_reply : Callback → Bool × Behaviour → Behaviour
with_reply callback (found, b) = record b {
  replies = b.replies ++ cancel_reply callback found ∷ [];
}

answer_cancel_lem :
    (callback : Callback) (x : Bool × Behaviour)
    → cancel_answer callback x.1.replies ≡ none
    → (answer_cancel callback x ≡ with_reply callback x)
      × (await_cancel callback (with_reply callback x) ≡ answered (cancel_result x.0))
unfolding answer_cancel cancel_answer
answer_cancel_lem callback (true, b) e = (
  refl,
  rw (cancel_answer-append callback b.replies (cancelled callback) e, await_cancel) (ground arith),
)
answer_cancel_lem callback (false, b) e = (
  refl,
  rw (cancel_answer-append callback b.replies (cancel_failed callback id_not_found) e, await_cancel)
      (ground arith),
)

-- The user gets the answer of the behaviour.
cancel_send_lem :
    (w : World) (b : Behaviour) (k : ℕ) (callback : Callback)
    → cancel_answer callback b.replies ≡ none
    → let x = cancel_send_by_local_send_id b k in
      cancel_send w b k callback ≡ done (cancel_result x.0, with_reply callback x)
unfolding cancel_send push_event
cancel_send_lem w b k callback fresh =
    let x = cancel_send_by_local_send_id b k in
    let same =
      cancel_send_cases (λ y. y.1.replies ≡ b.replies) b k (λ v e. refl) (λ v e f. refl)
        (λ e f. refl) in
    let (e, f) = answer_cancel_lem callback x (rw same fresh) in rw (e, f) refl

-- `cancel_send` answers whether there was a send of this id, pending or ongoing, in a well formed
-- state; afterwards there is no record of it in either table, all other sends are as they were, and
-- asking for its next chunk reads and sends nothing.
pub cancel_send-stops :
    (w : World) (b : Behaviour) (k : ℕ) (callback : Callback)
    → WellFormed b
    → cancel_answer callback b.replies ≡ none
    → Returns
        (λ r.
          (r.0 ≡ cancel_result (is_some (get b.pending_send k) || is_some (get b.ongoing_send k)))
          × ((j : ℕ) → get r.1.pending_send j ≡ (if k == j then none else get b.pending_send j))
          × ((j : ℕ) → get r.1.ongoing_send j ≡ (if k == j then none else get b.ongoing_send j))
          × ((u : World) → progress_ongoing_send u r.1 k ≡ r.1))
        (cancel_send w b k callback)
cancel_send-stops w b k callback wf fresh =
    let x = cancel_send_by_local_send_id b k in
    let stopped = cancel_send_stops b k wf in
    rw (cancel_send_lem w b k callback fresh) (
      ap cancel_result stopped.answer,
      stopped.pending,
      stopped.ongoing,
      λ u. no_progress u (with_reply callback x) k (ground (arith, stopped.ongoing k)),
    )

cancel_recv_lem :
    (w : World) (b : Behaviour) (k : ℕ) (callback : Callback)
    → cancel_answer callback b.replies ≡ none
    → let x = cancel_recv_by_local_recv_id b k in
      cancel_recv w b k callback ≡ done (cancel_result x.0, with_reply callback x)
unfolding cancel_recv push_event
cancel_recv_lem w b k callback fresh =
    let x = cancel_recv_by_local_recv_id b k in
    let same =
      cancel_recv_cases (λ y. y.1.replies ≡ b.replies) b k (λ v e. refl) (λ v e f. refl)
        (λ e f. refl) in
    let (e, f) = answer_cancel_lem callback x (rw same fresh) in rw (e, f) refl

-- In a well formed state in which another receive is ongoing under the number that is the local id of
-- an ongoing one, `cancel_recv` of that id answers `Ok(())`, but the receive that was meant goes on:
-- the other one is dropped, and its sender told to stop.
pub cancel_recv-drops_other :
    (w : World) (b : Behaviour) (r : ℕ) (v u : OngoingFileRecv) (callback : Callback)
    → WellFormed b
    → get b.ongoing_recv r ≡ some v
    → get b.ongoing_recv v.local_recv_id ≡ some u
    → r ≢ v.local_recv_id
    → cancel_answer callback b.replies ≡ none
    → Returns
        (λ x.
          (x.0 ≡ ok tt)
          × (get x.1.ongoing_recv v.local_recv_id ≡ none)
          × (get x.1.ongoing_recv r ≡ some v)
          × (x.1.pending_handler_event
              ≡ b.pending_handler_event
                ++ notify_handler u.remote (local_cancel_recv u.remote_send_id) ∷ []))
        (cancel_recv w b v.local_recv_id callback)
cancel_recv-drops_other w b r v u callback wf e f apart fresh =
    let (found, dropped, kept, told) = cancel_ongoing_recv_drops_other b r v u wf e f apart in
    rw (cancel_recv_lem w b v.local_recv_id callback fresh)
      (ap cancel_result found, dropped, kept, told)
