-- ===== src/Blob/Invariant/RecvOps.antt =====
-- The receiving operations keep the behaviour well formed.
use owl_nest.Base.{
  ℕ, ◌+◌, ◌≡◌, refl, Option, none, some, Bool, true, false, nat_key, arith, List, [], ◌∷◌, String,
}
use owl_nest.Base.Table.{remove}
use owl_nest.Base.Within.{remove-Within, Within-refl}
use owl_nest.Blob.Types.{
  PeerId, FileHandle, FilePath, Callback, Bytes, World, wrapping_add, local_cancel_recv,
  cancelled_recv,
}
use owl_nest.Blob.State.{Behaviour, emit, notify}
use owl_nest.Blob.Recv.{
  on_new_pending_recv, accept_pending_recv, progress_ongoing_recv, remove_recv_record,
  cancel_recv_by_local_recv_id, remove_recv_by_remote_send_id,
}
use owl_nest.Blob.Behaviour.{cancel_recvs}
use owl_nest.Blob.Cases.{
  accept_pending_recv_cases, progress_ongoing_recv_cases, remove_recv_record_cases,
  remove_recv_by_remote_send_id_cases, accepted_recv, received_chunk,
}
use owl_nest.Blob.Invariant.Recvs.{
  RecvsOk, RecvsOk-sub, RecvsOk-queue, RecvsOk-start, RecvsOk-progress,
}
use owl_nest.Blob.Invariant.Formed.{
  WellFormed, Advances, kept, Advances-refl, Advances-trans, HasRoom, Ends,
}

module _ (b : Behaviour) (k : ℕ) (wf : WellFormed b) where
  without_pending : RecvsOk b.recv_counter (remove b.pending_recv k) b.ongoing_recv
  without_pending =
      RecvsOk-sub wf.recvs _ _ (remove-Within b.pending_recv k) (Within-refl b.ongoing_recv)

  without_ongoing : RecvsOk b.recv_counter b.pending_recv (remove b.ongoing_recv k)
  without_ongoing =
      RecvsOk-sub wf.recvs _ _ (Within-refl b.pending_recv) (remove-Within b.ongoing_recv k)

  pub remove_recv_record-Advances : Advances 0 b (remove_recv_record b k).1
  remove_recv_record-Advances =
      remove_recv_record_cases (λ r. Advances 0 b r.1) b k
        (λ v e. kept b _ (record { sends = wf.sends; recvs = without_pending }) refl refl)
        (λ v e f. kept b _ (record { sends = wf.sends; recvs = without_ongoing }) refl refl)
        (λ e f. Advances-refl 0 b wf)

cancel_answer-Advances :
    (b : Behaviour) (k : ℕ) (r : Option (PeerId × ℕ) × Behaviour)
    → Advances 0 b r.1
    → Advances 0 b
        (elim r.0 as (λ _. Bool × Behaviour) [
          | some (remote, id) ↦
              (true, emit (notify r.1 remote (local_cancel_recv id)) (cancelled_recv k))
          | none ↦ (false, r.1)
        ]).1
cancel_answer-Advances b k (some (remote, id), c) x = record {
  formed = record { sends = x.formed.sends; recvs = x.formed.recvs };
  send_counter = x.send_counter;
  recv_counter = x.recv_counter;
}
cancel_answer-Advances b k (none, c) x = x

pub cancel_recv-Advances :
    (b : Behaviour) (k : ℕ) → WellFormed b → Advances 0 b (cancel_recv_by_local_recv_id b k).1
unfolding cancel_recv_by_local_recv_id
cancel_recv-Advances b k wf =
    cancel_answer-Advances b k (remove_recv_record b k) (remove_recv_record-Advances b k wf)

pub cancel_recvs-Advances :
    (b : Behaviour) (ks : List ℕ) → WellFormed b → Advances 0 b (cancel_recvs b ks)
unfolding cancel_recvs
cancel_recvs-Advances b [] wf = Advances-refl 0 b wf
cancel_recvs-Advances b (k ∷ ks) wf =
    let first = cancel_recv-Advances b k wf in
    Advances-trans 0 b _ _ first
      (cancel_recvs-Advances (cancel_recv_by_local_recv_id b k).1 ks first.formed)

pub on_new_pending_recv-Advances :
    (w : World) (b : Behaviour) (from : PeerId) (name : String) (id total : ℕ)
    → HasRoom b
    → WellFormed b
    → Advances 1 b (on_new_pending_recv w b from name id total)
unfolding on_new_pending_recv
on_new_pending_recv-Advances w b from name id total room wf =
    let next : wrapping_add b.recv_counter 1 ≡ b.recv_counter + 1 =
      omega (arith, room.recv_counter) in
    record {
      formed = record { sends = wf.sends; recvs = rw next (RecvsOk-queue wf.recvs _ refl) };
      send_counter = omega arith;
      recv_counter = omega arith;
    }

pub accept_pending_recv-Advances :
    (w : World) (b : Behaviour) (file : FileHandle) (path : FilePath) (k : ℕ) (callback : Callback)
    → WellFormed b
    → Advances 0 b (accept_pending_recv w b file path k callback)
accept_pending_recv-Advances w b file path k callback wf =
    accept_pending_recv_cases (Advances 0 b) w b file path k callback
      (λ e. kept b _ (record { sends = wf.sends; recvs = wf.recvs }) refl refl)
      (λ v e.
        kept b _
          (record {
            sends = wf.sends;
            recvs = RecvsOk-start wf.recvs k v (accepted_recv w file path k v) e refl;
          })
          refl refl)

pub progress_ongoing_recv-Advances :
    (w : World) (b : Behaviour) (k : ℕ) (content : Bytes)
    → WellFormed b
    → Ends (Advances 0 b) (progress_ongoing_recv w b k content)
progress_ongoing_recv-Advances w b k content wf =
    progress_ongoing_recv_cases (Ends (Advances 0 b)) w b k content (λ e. Advances-refl 0 b wf)
      (λ v e z q. kept b _ (record { sends = wf.sends; recvs = without_ongoing b k wf }) refl refl)
      (λ v e z q. kept b _ (record { sends = wf.sends; recvs = without_ongoing b k wf }) refl refl)
      (λ v e z q. tt)
      (λ v x e z q.
        kept b _ (record { sends = wf.sends; recvs = without_ongoing b k wf }) refl refl)
      (λ v c e z q.
        kept b _
          (record {
            sends = wf.sends;
            recvs = RecvsOk-progress wf.recvs k v (received_chunk w v c) e refl refl;
          })
          refl refl)

pub remove_recv_by_remote_send_id-Advances :
    (b : Behaviour) (k : ℕ) → WellFormed b → Advances 0 b (remove_recv_by_remote_send_id b k).1
remove_recv_by_remote_send_id-Advances b k wf =
    remove_recv_by_remote_send_id_cases (λ r. Advances 0 b r.1) b k
      (λ v e. kept b _ (record { sends = wf.sends; recvs = without_ongoing b k wf }) refl refl)
      (λ j v e f. kept b _ (record { sends = wf.sends; recvs = without_pending b j wf }) refl refl)
      (λ e f. Advances-refl 0 b wf)
