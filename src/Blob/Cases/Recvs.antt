-- ===== src/Blob/Cases/Recvs.antt =====
-- The ways that the operations of behaviour.rs on receives can go.
use owl_nest.Base.{
  Bool, true, false, ℕ, String, ◌≡◌, ◌≢◌, refl, Option, none, some, List, ◌++◌, ◌==◌, nat_key, inl,
  inr, Option-cases, Bool-cases, length, arith,
}
use owl_nest.Base.Table.{get, insert, remove, bindings}
use owl_nest.Blob.Types.{
  PeerId, FileHandle, FilePath, Callback, Bytes, World, Run, done, stuck, wrapping_add, OutEvent,
  unexpected_eof, recv_progressed, ongoing_recv_error, recv_failed, pending_recv_not_found,
  accept_file, local_cancel_recv, cancelled_recv,
}
use owl_nest.Blob.State.{Behaviour, PendingRecv, OngoingFileRecv, emit, notify, reply}
use owl_nest.Blob.Recv.{
  accept_pending_recv, cancel_recv_by_local_recv_id, WriteEnd, all_written, failed, unanswered,
  write_loop, record_writes, progress_ongoing_recv, remove_recv_record, first_from,
  remove_recv_by_remote_send_id,
}

abbrev pub accepted_recv : World → FileHandle → FilePath → ℕ → PendingRecv → OngoingFileRecv
accepted_recv w file path recv_id v = record {
  remote_send_id = v.remote_send_id;
  local_recv_id = recv_id;
  remote = v.remote;
  bytes_received = 0;
  bytes_total = v.bytes_total;
  file_handle = file;
  file_path = w.push_path path v.file_name;
  last_active = w.now;
}

pub accept_pending_recv_cases {ℓ} :
    (P : Behaviour → Type ℓ) (w : World) (b : Behaviour) (file : FileHandle) (path : FilePath)
    (k : ℕ) (callback : Callback)
    → (get b.pending_recv k ≡ none → P (reply b (recv_failed callback (pending_recv_not_found k))))
    → ((v : PendingRecv)
        → get b.pending_recv k ≡ some v
        → P (record (notify b v.remote (accept_file v.remote_send_id callback)) {
          pending_recv = remove b.pending_recv k;
          ongoing_recv = insert b.ongoing_recv v.remote_send_id (accepted_recv w file path k v);
        }))
    → P (accept_pending_recv w b file path k callback)
unfolding accept_pending_recv
accept_pending_recv_cases P w b file path k callback absent found =
    elim (Option-cases (get b.pending_recv k)) [
      | inl e ↦ rw (e, accept_pending_recv) (absent e)
      | inr (v, e) ↦ rw (e, accept_pending_recv) (found v e)
    ]

abbrev pub take_recv : Behaviour → ℕ → Behaviour
take_recv b k = record b { ongoing_recv = remove b.ongoing_recv k }

-- A record whose chunk was written, and the state with it back in the table.
abbrev pub received_chunk : World → OngoingFileRecv → ℕ → OngoingFileRecv
received_chunk w v cursor = record v {
  last_active = w.now;
  bytes_received = wrapping_add v.bytes_received cursor;
}

module _ {ℓ} (P : Run Behaviour → Type ℓ) (w : World) (b : Behaviour) (k : ℕ)
    (content : Bytes) where
  abbrev pub log_writes : OngoingFileRecv → Behaviour
  log_writes v = record b {
    ongoing_recv = remove b.ongoing_recv k;
    written =
        b.written ++ record_writes v.file_handle (write_loop (w.writes v.file_handle) content 0).0;
  }

  write_end_cases :
      (v : OngoingFileRecv) (r : List Bytes × WriteEnd)
      → (r.1 ≡ unanswered → P stuck)
      → ((e : String)
          → r.1 ≡ failed e
          → P (done (emit (log_writes v) (ongoing_recv_error v.local_recv_id e))))
      → ((cursor : ℕ)
          → r.1 ≡ all_written cursor
          → P (
              done (record (log_writes v) {
                ongoing_recv = insert (remove b.ongoing_recv k) k (received_chunk w v cursor);
              })))
      → P (elim r.1 [
        | unanswered ↦ stuck
        | failed e ↦ done (emit (log_writes v) (ongoing_recv_error v.local_recv_id e))
        | all_written cursor ↦ done (record (log_writes v) {
          ongoing_recv = insert (remove b.ongoing_recv k) k (received_chunk w v cursor);
        })
      ])
  write_end_cases v (slices, unanswered) u f a = u refl
  write_end_cases v (slices, failed e) u f a = f e refl
  write_end_cases v (slices, all_written cursor) u f a = a cursor refl

  pub progress_ongoing_recv_cases :
      (get b.ongoing_recv k ≡ none → P (done b))
      → ((v : OngoingFileRecv)
          → get b.ongoing_recv k ≡ some v
          → length content ≡ 0
          → v.bytes_received ≢ v.bytes_total
          → P (done (emit (take_recv b k) (OutEvent.error (unexpected_eof v.local_recv_id)))))
      → ((v : OngoingFileRecv)
          → get b.ongoing_recv k ≡ some v
          → length content ≡ 0
          → v.bytes_received ≡ v.bytes_total
          → P (
              done (
                emit
                  (take_recv b k)
                  (recv_progressed v.local_recv_id v.bytes_total v.bytes_total))))
      → ((v : OngoingFileRecv)
          → get b.ongoing_recv k ≡ some v
          → length content ≢ 0
          → (write_loop (w.writes v.file_handle) content 0).1 ≡ unanswered
          → P stuck)
      → ((v : OngoingFileRecv) (e : String)
          → get b.ongoing_recv k ≡ some v
          → length content ≢ 0
          → (write_loop (w.writes v.file_handle) content 0).1 ≡ failed e
          → P (done (emit (log_writes v) (ongoing_recv_error v.local_recv_id e))))
      → ((v : OngoingFileRecv) (cursor : ℕ)
          → get b.ongoing_recv k ≡ some v
          → length content ≢ 0
          → (write_loop (w.writes v.file_handle) content 0).1 ≡ all_written cursor
          → P (
              done (record (log_writes v) {
                ongoing_recv = insert (remove b.ongoing_recv k) k (received_chunk w v cursor);
              })))
      → P (progress_ongoing_recv w b k content)
  unfolding progress_ongoing_recv
  progress_ongoing_recv_cases absent early ended unanswered_ failed_ written_ =
      elim (Option-cases (get b.ongoing_recv k)) [
        | inl e ↦ rw (e, progress_ongoing_recv) (absent e)
        | inr (v, e) ↦ elim (Bool-cases (length content == 0)) [
          | inl z ↦ elim (Bool-cases (v.bytes_received == v.bytes_total)) [
            | inl q ↦ rw (e, z, q, progress_ongoing_recv) (ended v e (ground arith) (ground arith))
            | inr q ↦ rw (e, z, q, progress_ongoing_recv) (early v e (ground arith) (ground arith))
          ]
          | inr z ↦
              rw (e, z, progress_ongoing_recv)
                (write_end_cases v (write_loop (w.writes v.file_handle) content 0)
                  (unanswered_ v e (ground arith)) (λ x. failed_ v x e (ground arith))
                  (λ c. written_ v c e (ground arith)))
        ]
      ]

pub remove_recv_record_cases {ℓ} :
    (P : Option (PeerId × ℕ) × Behaviour → Type ℓ) (b : Behaviour) (k : ℕ)
    → ((v : PendingRecv)
        → get b.pending_recv k ≡ some v
        → P (
          some (v.remote, v.remote_send_id),
          record b { pending_recv = remove b.pending_recv k },
        ))
    → ((v : OngoingFileRecv)
        → get b.pending_recv k ≡ none
        → get b.ongoing_recv k ≡ some v
        → P (some (v.remote, v.remote_send_id), take_recv b k))
    → (get b.pending_recv k ≡ none → get b.ongoing_recv k ≡ none → P (none, b))
    → P (remove_recv_record b k)
unfolding remove_recv_record
remove_recv_record_cases P b k pending ongoing absent = elim (Option-cases (get b.pending_recv k)) [
  | inr (v, e) ↦ rw (e, remove_recv_record) (pending v e)
  | inl e ↦ elim (Option-cases (get b.ongoing_recv k)) [
    | inr (v, f) ↦ rw (e, f, remove_recv_record) (ongoing v e f)
    | inl f ↦ rw (e, f, remove_recv_record) (absent e f)
  ]
]

pub remove_recv_by_remote_send_id_cases {ℓ} :
    (P : Option (PeerId × ℕ) × Behaviour → Type ℓ) (b : Behaviour) (k : ℕ)
    → ((v : OngoingFileRecv)
        → get b.ongoing_recv k ≡ some v
        → P (some (v.remote, v.local_recv_id), take_recv b k))
    → ((j : ℕ) (v : PendingRecv)
        → get b.ongoing_recv k ≡ none
        → first_from k (bindings b.pending_recv) ≡ some (j, v)
        → P (
          some (v.remote, v.remote_send_id),
          record b { pending_recv = remove b.pending_recv j },
        ))
    → (get b.ongoing_recv k ≡ none → first_from k (bindings b.pending_recv) ≡ none → P (none, b))
    → P (remove_recv_by_remote_send_id b k)
unfolding remove_recv_by_remote_send_id
remove_recv_by_remote_send_id_cases P b k ongoing pending absent =
    elim (Option-cases (get b.ongoing_recv k)) [
      | inr (v, e) ↦ rw (e, remove_recv_by_remote_send_id) (ongoing v e)
      | inl e ↦ elim (Option-cases (first_from k (bindings b.pending_recv))) [
        | inr ((j, v), f) ↦ rw (e, f, remove_recv_by_remote_send_id) (pending j v e f)
        | inl f ↦ rw (e, f, remove_recv_by_remote_send_id) (absent e f)
      ]
    ]

pub cancel_recv_cases {ℓ} :
    (P : Bool × Behaviour → Type ℓ) (b : Behaviour) (k : ℕ)
    → ((v : PendingRecv)
        → get b.pending_recv k ≡ some v
        → P (
          true,
          emit
              (notify
                (record b { pending_recv = remove b.pending_recv k })
                v.remote
                (local_cancel_recv v.remote_send_id))
              (cancelled_recv k),
        ))
    → ((v : OngoingFileRecv)
        → get b.pending_recv k ≡ none
        → get b.ongoing_recv k ≡ some v
        → P (
          true,
          emit
              (notify (take_recv b k) v.remote (local_cancel_recv v.remote_send_id))
              (cancelled_recv k),
        ))
    → (get b.pending_recv k ≡ none → get b.ongoing_recv k ≡ none → P (false, b))
    → P (cancel_recv_by_local_recv_id b k)
unfolding cancel_recv_by_local_recv_id
cancel_recv_cases P b k pending ongoing absent =
    remove_recv_record_cases
      (λ r. P (elim r.0 as (λ _. Bool × Behaviour) [
        | some (remote, id) ↦
            (true, emit (notify r.1 remote (local_cancel_recv id)) (cancelled_recv k))
        | none ↦ (false, r.1)
      ]))
      b k pending ongoing absent
