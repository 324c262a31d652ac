-- ===== src/Blob/Cancel.antt =====
-- What cancelling does: cancel_send_by_local_send_id, cancel_recv_by_local_recv_id and the remote
-- cancellations of protocols/owlnest-blob/src/behaviour.rs.
use owl_nest.Base.{
  ℕ, ◌≡◌, ◌≢◌, refl, none, some, Bool, true, false, ◌||◌, List, [], ◌∷◌, ◌++◌, is_some, nat_key,
  ◌==◌, if◌then◌else◌, arith,
}
use owl_nest.Base.Table.{get, remove, get-remove, bindings}
use owl_nest.Blob.Types.{
  PeerId, World, done, notify_handler, local_cancel_recv, OutEvent, ToBehaviourEvent,
}
use owl_nest.Blob.State.{Behaviour, PendingRecv, OngoingFileRecv}
use owl_nest.Blob.Send.{progress_ongoing_send, cancel_send_by_local_send_id}
use owl_nest.Blob.Recv.{cancel_recv_by_local_recv_id, remove_recv_by_remote_send_id, first_from}
use owl_nest.Blob.Behaviour.{on_connection_handler_event}
use owl_nest.Blob.Cases.{cancel_send_cases, cancel_recv_cases}
use owl_nest.Blob.Invariant.Formed.{WellFormed}

-- A send is cancelled: no record of it is left in either table, every other send is as it was, the
-- answer tells whether there was a record, and to ask for its next chunk changes nothing.
pub record SendCancelled (b : Behaviour) (k : ℕ) (r : Bool × Behaviour) : Type 0 where
  pub answer : r.0 ≡ (is_some (get b.pending_send k) || is_some (get b.ongoing_send k))
  pub pending : (j : ℕ) → get r.1.pending_send j ≡ (if k == j then none else get b.pending_send j)
  pub ongoing : (j : ℕ) → get r.1.ongoing_send j ≡ (if k == j then none else get b.ongoing_send j)
  pub silent : (w : World) → progress_ongoing_send w r.1 k ≡ r.1

pub no_progress :
    (w : World) (b : Behaviour) (k : ℕ)
    → get b.ongoing_send k ≡ none
    → progress_ongoing_send w b k ≡ b
unfolding progress_ongoing_send
no_progress w b k e = rw (e, progress_ongoing_send)

-- In a well formed state, cancelling a send by its id removes its record from whichever table holds
-- it and no other record, answers whether there was one, and no chunk is read for it afterwards.
pub cancel_send_stops :
    (b : Behaviour) (k : ℕ) → WellFormed b → SendCancelled b k (cancel_send_by_local_send_id b k)
cancel_send_stops b k wf =
    cancel_send_cases (SendCancelled b k) b k
      (λ v e. record {
        answer = rw e;
        pending = λ j. get-remove b.pending_send k j;
        ongoing = λ j. ground (arith, wf.sends.apart k v e);
        silent = λ w. no_progress w _ k (wf.sends.apart k v e);
      })
      (λ v e f. record {
        answer = rw (e, f);
        pending = λ j. ground arith;
        ongoing = λ j. get-remove b.ongoing_send k j;
        silent = λ w. no_progress w _ k (ground (arith, get-remove b.ongoing_send k k));
      })
      (λ e f. record {
        answer = rw (e, f);
        pending = λ j. ground arith;
        ongoing = λ j. ground arith;
        silent = λ w. no_progress w _ k f;
      })

-- A pending receive is cancelled: its record is gone and no other, the answer is true, its sender
-- is told the sender's id and the local id is reported.
pub record PendingRecvCancelled (b : Behaviour) (k : ℕ) (v : PendingRecv) (r : Bool × Behaviour)
    : Type 0 where
  pub answer : r.0 ≡ true
  pub pending : (j : ℕ) → get r.1.pending_recv j ≡ (if k == j then none else get b.pending_recv j)
  pub ongoing : r.1.ongoing_recv ≡ b.ongoing_recv
  pub told :
      r.1.pending_handler_event
      ≡ b.pending_handler_event ++ notify_handler v.remote (local_cancel_recv v.remote_send_id) ∷ []
  pub out : r.1.out_events ≡ b.out_events ++ OutEvent.cancelled_recv k ∷ []

-- Cancelling a receive that is pending, by its local id, removes exactly its record, leaves the
-- ongoing receives, answers true, tells the sender to stop by the sender's id and reports the local
-- id to the user.
pub cancel_pending_recv :
    (b : Behaviour) (k : ℕ) (v : PendingRecv)
    → get b.pending_recv k ≡ some v
    → PendingRecvCancelled b k v (cancel_recv_by_local_recv_id b k)
cancel_pending_recv b k v e =
    cancel_recv_cases (PendingRecvCancelled b k v) b k
      (λ u f.
        let same : u ≡ v = ground arith in
        record {
          answer = refl;
          pending = λ j. get-remove b.pending_recv k j;
          ongoing = refl;
          told = rw same;
          out = refl;
        })
      (λ u f g. cc) (λ f g. cc)

-- The local id of an ongoing receive does not cancel it, in a well formed state, unless another or
-- the same receive happens to be ongoing under that number as its sender's id: the answer is false
-- and nothing changes.
pub cancel_ongoing_recv_fails :
    (b : Behaviour) (r : ℕ) (v : OngoingFileRecv)
    → WellFormed b
    → get b.ongoing_recv r ≡ some v
    → get b.ongoing_recv v.local_recv_id ≡ none
    → cancel_recv_by_local_recv_id b v.local_recv_id ≡ (false, b)
cancel_ongoing_recv_fails b r v wf e f =
    cancel_recv_cases (λ x. x ≡ (false, b)) b v.local_recv_id
      (λ u g. absurd (wf.recvs.apart v.local_recv_id u r v g e refl)) (λ u g h. cc) (λ g h. refl)

-- And if another receive is ongoing under that number, that one is dropped and its sender told to
-- stop, in a well formed state; the receive that was meant goes on.
pub cancel_ongoing_recv_drops_other :
    (b : Behaviour) (r : ℕ) (v u : OngoingFileRecv)
    → WellFormed b
    → get b.ongoing_recv r ≡ some v
    → get b.ongoing_recv v.local_recv_id ≡ some u
    → r ≢ v.local_recv_id
    → let x = cancel_recv_by_local_recv_id b v.local_recv_id in
      (x.0 ≡ true)
      × (get x.1.ongoing_recv v.local_recv_id ≡ none)
      × (get x.1.ongoing_recv r ≡ some v)
      × (x.1.pending_handler_event
          ≡ b.pending_handler_event
            ++ notify_handler u.remote (local_cancel_recv u.remote_send_id) ∷ [])
cancel_ongoing_recv_drops_other b r v u wf e f apart =
    cancel_recv_cases
      (λ x.
        (x.0 ≡ true)
        × (get x.1.ongoing_recv v.local_recv_id ≡ none)
        × (get x.1.ongoing_recv r ≡ some v)
        × (x.1.pending_handler_event
            ≡ b.pending_handler_event
              ++ notify_handler u.remote (local_cancel_recv u.remote_send_id) ∷ []))
      b v.local_recv_id (λ y g. absurd (wf.recvs.apart v.local_recv_id y r v g e refl))
      (λ y g h. (
        refl,
        ground (arith, get-remove b.ongoing_recv v.local_recv_id v.local_recv_id),
        ground (arith, get-remove b.ongoing_recv v.local_recv_id r),
        ground arith,
      ))
      (λ g h. cc)

first_from_matches :
    (id : ℕ) (l : List (ℕ × PendingRecv)) (k : ℕ) (v : PendingRecv)
    → first_from id l ≡ some (k, v)
    → v.remote_send_id ≡ id
unfolding first_from
first_from_matches id [] k v e = cc
first_from_matches id ((j, u) ∷ l) k v e = ground (arith, first_from_matches id l k v)

-- A sender's cancellation of a receive that is pending here, with nothing ongoing under the sender's
-- id, drops the record, but reports the sender's id as the cancelled receive, whatever the local id
-- is by which the user knows it.
pub remote_cancel_reports_remote_id :
    (w : World) (b : Behaviour) (peer : PeerId) (id k : ℕ) (v : PendingRecv)
    → get b.ongoing_recv id ≡ none
    → first_from id (bindings b.pending_recv) ≡ some (k, v)
    → on_connection_handler_event w b peer (ToBehaviourEvent.remote_cancel_recv id)
      ≡ done (record b {
        pending_recv = remove b.pending_recv k;
        out_events = b.out_events ++ OutEvent.cancelled_recv id ∷ [];
      })
unfolding on_connection_handler_event remove_recv_by_remote_send_id
remote_cancel_reports_remote_id w b peer id k v e f =
    rw (e, f, on_connection_handler_event)
      (rw (e, f, remove_recv_by_remote_send_id) (rw (first_from_matches id _ k v f)))
