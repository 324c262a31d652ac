-- ===== src/Blob/Invariant/SendOps.antt =====
-- The sending operations keep the behaviour well formed.
use owl_nest.Base.{
  ℕ, ◌+◌, ◌≡◌, refl, Option, none, some, Bool, true, false, nat_key, arith, List, [], ◌∷◌,
}
use owl_nest.Base.Table.{get, remove}
use owl_nest.Base.Within.{remove-Within, Within-refl}
use owl_nest.Blob.Types.{
  PeerId, FileHandle, FilePath, Callback, World, local_cancel_send, wrapping_add,
}
use owl_nest.Blob.State.{Behaviour, PendingSend, notify}
use owl_nest.Blob.Send.{
  send_file, progress_ongoing_send, pending_send_accepted, remove_send_record,
  cancel_send_by_local_send_id,
}
use owl_nest.Blob.Behaviour.{cancel_sends}
use owl_nest.Blob.Cases.{
  remove_send_record_cases, progress_ongoing_send_cases, pending_send_accepted_cases, started_send,
  start_send, sent_chunk, send_file_cases, queued_send,
}
use owl_nest.Blob.Invariant.Sends.{
  SendsOk, SendsOk-sub, SendsOk-queue, SendsOk-later, SendsOk-start, SendsOk-progress,
}
use owl_nest.Blob.Invariant.Recvs.{RecvsOk}
use owl_nest.Blob.Invariant.Formed.{
  WellFormed, Advances, kept, Advances-refl, Advances-trans, HasRoom, Ends,
}

pub remove_send_record-Advances :
    (b : Behaviour) (k : ℕ) → WellFormed b → Advances 0 b (remove_send_record b k).1
remove_send_record-Advances b k wf =
    remove_send_record_cases (λ r. Advances 0 b r.1) b k
      (λ v e.
        kept b _
          (record {
            sends =
                SendsOk-sub wf.sends _ _ (remove-Within b.pending_send k)
                  (Within-refl b.ongoing_send);
            recvs = wf.recvs;
          })
          refl refl)
      (λ v e f.
        kept b _
          (record {
            sends =
                SendsOk-sub wf.sends _ _ (Within-refl b.pending_send)
                  (remove-Within b.ongoing_send k);
            recvs = wf.recvs;
          })
          refl refl)
      (λ e f. Advances-refl 0 b wf)

-- A notification is no part of what is well formed.
cancel_answer-Advances :
    (b : Behaviour) (k : ℕ) (r : Option PeerId × Behaviour)
    → Advances 0 b r.1
    → Advances 0 b
        (elim r.0 as (λ _. Bool × Behaviour) [
          | some remote ↦ (true, notify r.1 remote (local_cancel_send k))
          | none ↦ (false, r.1)
        ]).1
cancel_answer-Advances b k (some remote, c) x = record {
  formed = record { sends = x.formed.sends; recvs = x.formed.recvs };
  send_counter = x.send_counter;
  recv_counter = x.recv_counter;
}
cancel_answer-Advances b k (none, c) x = x

pub cancel_send-Advances :
    (b : Behaviour) (k : ℕ) → WellFormed b → Advances 0 b (cancel_send_by_local_send_id b k).1
unfolding cancel_send_by_local_send_id
cancel_send-Advances b k wf =
    cancel_answer-Advances b k (remove_send_record b k) (remove_send_record-Advances b k wf)

pub cancel_sends-Advances :
    (b : Behaviour) (ks : List ℕ) → WellFormed b → Advances 0 b (cancel_sends b ks)
unfolding cancel_sends
cancel_sends-Advances b [] wf = Advances-refl 0 b wf
cancel_sends-Advances b (k ∷ ks) wf =
    let first = cancel_send-Advances b k wf in
    Advances-trans 0 b _ _ first
      (cancel_sends-Advances (cancel_send_by_local_send_id b k).1 ks first.formed)

pub progress_ongoing_send-Advances :
    (w : World) (b : Behaviour) (k : ℕ) → WellFormed b → Advances 0 b (progress_ongoing_send w b k)
progress_ongoing_send-Advances w b k wf =
    progress_ongoing_send_cases (Advances 0 b) w b k (λ e. Advances-refl 0 b wf)
      (λ v e f. kept b _ (record { sends = dropped; recvs = wf.recvs }) refl refl)
      (λ v buf e f z. kept b _ (record { sends = dropped; recvs = wf.recvs }) refl refl)
      (λ v buf e f z.
        kept b _
          (record {
            sends = SendsOk-progress wf.sends k v (sent_chunk w v buf) e refl;
            recvs = wf.recvs;
          })
          refl refl)
  where
    dropped : SendsOk b.send_counter b.pending_send (remove b.ongoing_send k)
    dropped = SendsOk-sub wf.sends _ _ (Within-refl b.pending_send) (remove-Within b.ongoing_send k)

pub start_send-Advances :
    (w : World) (b : Behaviour) (k : ℕ) (v : PendingSend)
    → get b.pending_send k ≡ some v
    → WellFormed b
    → Advances 0 b (start_send w b k v)
start_send-Advances w b k v e wf =
    kept b _
      (record {
        sends = SendsOk-start wf.sends k v (started_send w v) e (wf.sends.pending_keyed k v e).0;
        recvs = wf.recvs;
      })
      refl refl

pub pending_send_accepted-Advances :
    (w : World) (b : Behaviour) (k : ℕ)
    → WellFormed b
    → Ends (λ (r : Option ℕ × Behaviour). Advances 0 b r.1) (pending_send_accepted w b k)
pending_send_accepted-Advances w b k wf =
    pending_send_accepted_cases (Ends (λ (r : Option ℕ × Behaviour). Advances 0 b r.1)) w b k
      (λ v e.
        let started = start_send-Advances w b k v e wf in
        Advances-trans 0 b _ _ started
          (progress_ongoing_send-Advances w (start_send w b k v) v.local_send_id started.formed))
      (λ v e f. tt) (λ e f. Advances-refl 0 b wf)

-- Any state with the next id taken whose tables are in order for it.
with_send_id-Advances :
    (b b' : Behaviour)
    → HasRoom b
    → SendsOk (b.send_counter + 1) b'.pending_send b'.ongoing_send
    → RecvsOk b.recv_counter b'.pending_recv b'.ongoing_recv
    → b'.send_counter ≡ wrapping_add b.send_counter 1
    → b'.recv_counter ≡ b.recv_counter
    → Advances 1 b b'
with_send_id-Advances b b' room sends recvs cs cr =
    let next : b'.send_counter ≡ b.send_counter + 1 = omega (arith, room.send_counter) in
    record {
      formed = record { sends = rw next sends; recvs = rw cr recvs };
      send_counter = omega arith;
      recv_counter = omega arith;
    }

pub send_file-Advances :
    (w : World) (b : Behaviour) (file : FileHandle) (path : FilePath) (to : PeerId)
    (callback : Callback)
    → HasRoom b
    → WellFormed b
    → Ends (Advances 1 b) (send_file w b file path to callback)
send_file-Advances w b file path to callback room wf =
    send_file_cases (Ends (Advances 1 b)) w b file path to callback
      (λ c l.
        with_send_id-Advances b _ room (SendsOk-later wf.sends _ (omega arith)) wf.recvs refl refl)
      (λ c l. tt)
      (λ c m.
        with_send_id-Advances b _ room (SendsOk-later wf.sends _ (omega arith)) wf.recvs refl refl)
      (λ total c m n. tt)
      (λ total name c m n.
        with_send_id-Advances b _ room
          (SendsOk-queue wf.sends (queued_send w b file path to total) refl) wf.recvs refl refl)
