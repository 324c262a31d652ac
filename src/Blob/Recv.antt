-- ===== src/Blob/Recv.antt =====
-- The receiving half of protocols/owlnest-blob/src/behaviour.rs.
use owl_nest.Base.{
  ℕ, ◌+◌, String, true, false, not, ◌&&◌, Bool, Option, none, some, List, [], ◌∷◌, ◌++◌, length,
  take, drop, if◌then◌else◌, ◌==◌, leb, nat_key,
}
use owl_nest.Base.Table.{get, insert, remove, bindings}
use owl_nest.Blob.Types.{
  PeerId, FileHandle, FilePath, Callback, Bytes, wrapping_add, World, WriteAnswer, wrote,
  write_failed, Run, done, stuck, unexpected_eof, recv_failed, pending_recv_not_found, accept_file,
  local_cancel_recv, OutEvent, incoming_file, recv_progressed, ongoing_recv_error, cancelled_recv,
}
use owl_nest.Blob.State.{Behaviour, PendingRecv, OngoingFileRecv, emit, notify, reply}

unfoldable pub next_recv_id : Behaviour → ℕ × Behaviour
next_recv_id b = (b.recv_counter, record b { recv_counter = wrapping_add b.recv_counter 1 })

unfoldable pub on_new_pending_recv : World → Behaviour → PeerId → String → ℕ → ℕ → Behaviour
unfolding next_recv_id
on_new_pending_recv w b from file_name remote_send_id bytes_total =
    let (local_recv_id, b') = next_recv_id b in
    let pending : PendingRecv = record {
      local_recv_id = local_recv_id;
      remote_send_id = remote_send_id;
      bytes_total = bytes_total;
      file_name = file_name;
      remote = from;
      timestamp = w.now;
    } in
    let queued = record b' { pending_recv = insert b'.pending_recv local_recv_id pending } in
    emit queued (incoming_file from file_name local_recv_id bytes_total)

-- The accepted file moves from its local id to the id that its sender gave it.
unfoldable pub accept_pending_recv :
    World → Behaviour → FileHandle → FilePath → ℕ → Callback → Behaviour
accept_pending_recv w b file path recv_id callback = elim (get b.pending_recv recv_id) [
  | none ↦ reply b (recv_failed callback (pending_recv_not_found recv_id))
  | some v ↦
      let ongoing : OngoingFileRecv = record {
        remote_send_id = v.remote_send_id;
        local_recv_id = recv_id;
        remote = v.remote;
        bytes_received = 0;
        bytes_total = v.bytes_total;
        file_handle = file;
        file_path = w.push_path path v.file_name;
        last_active = w.now;
      } in
      let moved = record b {
        pending_recv = remove b.pending_recv recv_id;
        ongoing_recv = insert b.ongoing_recv v.remote_send_id ongoing;
      } in
      notify moved v.remote (accept_file v.remote_send_id callback)
]

-- How the loop over `write` ends, with the slices that the file took.
pub data WriteEnd : Type 0 where
  all_written : ℕ → WriteEnd
  failed : String → WriteEnd
  unanswered : WriteEnd

-- `loop { cursor += write(&content[cursor..])?; if cursor >= len { break } }`, one answer for each
-- call. Where the answers end first, the loop is still running.
unfoldable pub write_loop : List WriteAnswer → Bytes → ℕ → List Bytes × WriteEnd
write_loop [] content cursor = ([], unanswered)
write_loop (write_failed e ∷ answers) content cursor = ([], failed e)
write_loop (wrote n ∷ answers) content cursor =
    let slice = take n (drop cursor content) in
    let (slices, end) = write_loop answers content (cursor + n) in
    if leb (length content) (cursor + n)
    then (slice ∷ [], all_written (cursor + n))
    else (slice ∷ slices, end)

unfoldable pub record_writes : FileHandle → List Bytes → List (FileHandle × Bytes)
record_writes file [] = []
record_writes file (s ∷ slices) = (file, s) ∷ record_writes file slices

-- A chunk arrived. The record is taken out and goes back only if all bytes were written.
unfoldable pub progress_ongoing_recv : World → Behaviour → ℕ → Bytes → Run Behaviour
unfolding write_loop record_writes
progress_ongoing_recv w b remote_send_id content = elim (get b.ongoing_recv remote_send_id) [
  | none ↦ done b
  | some v ↦
      let taken = record b { ongoing_recv = remove b.ongoing_recv remote_send_id } in
      let len = length content in
      if len == 0 && not (v.bytes_received == v.bytes_total)
      then done (emit taken (OutEvent.error (unexpected_eof v.local_recv_id)))
      else if len == 0
      then done (emit taken (recv_progressed v.local_recv_id v.bytes_total v.bytes_total))
      else (let (slices, end) = write_loop (w.writes v.file_handle) content 0 in
          let after = record taken { written = b.written ++ record_writes v.file_handle slices } in
          elim end [
            | unanswered ↦ stuck
            | failed e ↦ done (emit after (ongoing_recv_error v.local_recv_id e))
            | all_written cursor ↦ done (record after {
              ongoing_recv =
                  insert (remove b.ongoing_recv remote_send_id) remote_send_id (record v {
                    last_active = w.now;
                    bytes_received = wrapping_add v.bytes_received cursor;
                  });
            })
          ])
]

-- Ongoing receives are looked up under the local id here, though they are stored under the
-- sender's.
unfoldable pub remove_recv_record : Behaviour → ℕ → Option (PeerId × ℕ) × Behaviour
remove_recv_record b local_recv_id = elim (get b.pending_recv local_recv_id) [
  | some v ↦ (
    some (v.remote, v.remote_send_id),
    record b { pending_recv = remove b.pending_recv local_recv_id },
  )
  | none ↦ elim (get b.ongoing_recv local_recv_id) [
    | some v ↦ (
      some (v.remote, v.remote_send_id),
      record b { ongoing_recv = remove b.ongoing_recv local_recv_id },
    )
    | none ↦ (none, b)
  ]
]

unfoldable pub cancel_recv_by_local_recv_id : Behaviour → ℕ → Bool × Behaviour
unfolding remove_recv_record
cancel_recv_by_local_recv_id b local_recv_id =
    let (found, b') = remove_recv_record b local_recv_id in
    elim found [
      | some (remote, remote_send_id) ↦ (
        true,
        emit (notify b' remote (local_cancel_recv remote_send_id)) (cancelled_recv local_recv_id),
      )
      | none ↦ (false, b')
    ]

-- `extract_if(…).next()`: the first pending receive of the walk that has this id at its sender.
unfoldable pub first_from : ℕ → List (ℕ × PendingRecv) → Option (ℕ × PendingRecv)
first_from remote_send_id [] = none
first_from remote_send_id ((k, v) ∷ rest) =
    if v.remote_send_id == remote_send_id then some (k, v) else first_from remote_send_id rest

-- The second component of the answer is a local id on the first branch, and the sender's id on the
-- second.
unfoldable pub remove_recv_by_remote_send_id : Behaviour → ℕ → Option (PeerId × ℕ) × Behaviour
unfolding first_from
remove_recv_by_remote_send_id b remote_send_id = elim (get b.ongoing_recv remote_send_id) [
  | some v ↦ (
    some (v.remote, v.local_recv_id),
    record b { ongoing_recv = remove b.ongoing_recv remote_send_id },
  )
  | none ↦ elim (first_from remote_send_id (bindings b.pending_recv)) [
    | some (k, v) ↦
        (some (v.remote, v.remote_send_id), record b { pending_recv = remove b.pending_recv k })
    | none ↦ (none, b)
  ]
]
