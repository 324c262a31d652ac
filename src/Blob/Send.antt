-- ===== src/Blob/Send.antt =====
-- The sending half of protocols/owlnest-blob/src/behaviour.rs.
use owl_nest.Base.{
  ℕ, ◌^◌, true, false, not, ◌&&◌, Bool, Option, none, some, length, if◌then◌else◌, ◌==◌, is_some,
  contains, nat_key,
}
use owl_nest.Base.Table.{get, insert, remove}
use owl_nest.Blob.Types.{
  PeerId, FileHandle, FilePath, Callback, wrapping_add, World, Run, done, panicked, ◌>>=◌, unwrap,
  FileSendError, send_failed, new_file_send, file_chunk, local_cancel_send,
}
use owl_nest.Blob.State.{Behaviour, PendingSend, OngoingFileSend, notify, reply}

abbrev pub file_chunk_size : ℕ
file_chunk_size = 2 ^ 18

unfoldable pub next_send_id : Behaviour → ℕ × Behaviour
next_send_id b = (b.send_counter, record b { send_counter = wrapping_add b.send_counter 1 })

-- `InEvent::SendFile`. The id is taken before the checks.
unfoldable pub send_file :
    World → Behaviour → FileHandle → FilePath → PeerId → Callback → Run Behaviour
unfolding next_send_id
send_file w b file file_path to callback =
    let (local_send_id, b') = next_send_id b in
    if not (contains to b.connected_peers)
    then (if w.listening callback
        then done (reply b' (send_failed callback FileSendError.peer_not_found))
        else panicked)
    else elim (w.metadata_len file) [
      | none ↦ done b'
      | some bytes_total ↦ (do
        let pending : PendingSend = record {
          local_send_id = local_send_id;
          remote = to;
          file_path = file_path;
          bytes_total = bytes_total;
          file = file;
          timestamp = w.now;
        }
        let queued = record b' { pending_send = insert b'.pending_send local_send_id pending }
        file_name ← unwrap (w.file_name file_path)
        done (notify queued to (new_file_send file_name local_send_id callback bytes_total)))
    ]

-- One read of a chunk, sent on; an empty read is the end of the file.
unfoldable pub progress_ongoing_send : World → Behaviour → ℕ → Behaviour
progress_ongoing_send w b local_send_id = elim (get b.ongoing_send local_send_id) [
  | none ↦ b
  | some v ↦ elim (w.read v.file_handle file_chunk_size) [
    | none ↦ record b { ongoing_send = remove b.ongoing_send local_send_id }
    | some buf ↦
        let bytes_read = length buf in
        let v' = record v {
          last_active = w.now;
          bytes_sent = wrapping_add v.bytes_sent bytes_read;
        } in
        let sent = notify b v.remote (file_chunk v.local_send_id buf) in
        record sent {
          ongoing_send =
              if bytes_read == 0
              then remove b.ongoing_send local_send_id
              else insert b.ongoing_send local_send_id v';
        }
  ]
]

-- `Ok(bytes_total)` is `some`. The id of an ongoing send passes the first test and then panics.
unfoldable pub pending_send_accepted : World → Behaviour → ℕ → Run (Option ℕ × Behaviour)
unfolding progress_ongoing_send
pending_send_accepted w b local_send_id =
    if not (is_some (get b.pending_send local_send_id))
      && not (is_some (get b.ongoing_send local_send_id))
    then done (none, b)
    else (do
      v ← unwrap (get b.pending_send local_send_id)
      let ongoing : OngoingFileSend = record {
        local_send_id = v.local_send_id;
        remote = v.remote;
        bytes_sent = 0;
        bytes_total = v.bytes_total;
        file_handle = v.file;
        file_path = v.file_path;
        last_active = w.now;
      }
      let moved = record b {
        pending_send = remove b.pending_send local_send_id;
        ongoing_send = insert b.ongoing_send v.local_send_id ongoing;
      }
      done (some v.bytes_total, progress_ongoing_send w moved v.local_send_id))

-- Pending sends come first; an ongoing send of the same id is then left.
unfoldable pub remove_send_record : Behaviour → ℕ → Option PeerId × Behaviour
remove_send_record b local_send_id = elim (get b.pending_send local_send_id) [
  | some v ↦ (some v.remote, record b { pending_send = remove b.pending_send local_send_id })
  | none ↦ elim (get b.ongoing_send local_send_id) [
    | some v ↦ (some v.remote, record b { ongoing_send = remove b.ongoing_send local_send_id })
    | none ↦ (none, b)
  ]
]

unfoldable pub cancel_send_by_local_send_id : Behaviour → ℕ → Bool × Behaviour
unfolding remove_send_record
cancel_send_by_local_send_id b local_send_id =
    let (found, b') = remove_send_record b local_send_id in
    elim found [
      | some remote ↦ (true, notify b' remote (local_cancel_send local_send_id))
      | none ↦ (false, b')
    ]
