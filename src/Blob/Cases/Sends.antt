-- ===== src/Blob/Cases/Sends.antt =====
-- The ways that the operations of behaviour.rs on sends can go.
use owl_nest.Base.{
  Bool, ℕ, String, ◌≡◌, ◌≢◌, true, false, Option, none, some, ◌==◌, nat_key, inl, inr, Option-cases,
  Bool-cases, length, arith, contains,
}
use owl_nest.Base.Table.{get, insert, remove}
use owl_nest.Blob.Types.{
  PeerId, FileHandle, FilePath, Callback, Bytes, World, Run, done, panicked, wrapping_add,
  file_chunk, FileSendError, send_failed, new_file_send, local_cancel_send,
}
use owl_nest.Blob.State.{Behaviour, PendingSend, OngoingFileSend, notify, reply}
use owl_nest.Blob.Send.{
  file_chunk_size, send_file, progress_ongoing_send, pending_send_accepted, remove_send_record,
  cancel_send_by_local_send_id,
}

pub remove_send_record_cases {ℓ} :
    (P : Option PeerId × Behaviour → Type ℓ) (b : Behaviour) (k : ℕ)
    → ((v : PendingSend)
        → get b.pending_send k ≡ some v
        → P (some v.remote, record b { pending_send = remove b.pending_send k }))
    → ((v : OngoingFileSend)
        → get b.pending_send k ≡ none
        → get b.ongoing_send k ≡ some v
        → P (some v.remote, record b { ongoing_send = remove b.ongoing_send k }))
    → (get b.pending_send k ≡ none → get b.ongoing_send k ≡ none → P (none, b))
    → P (remove_send_record b k)
unfolding remove_send_record
remove_send_record_cases P b k pending ongoing absent = elim (Option-cases (get b.pending_send k)) [
  | inr (v, e) ↦ rw (e, remove_send_record) (pending v e)
  | inl e ↦ elim (Option-cases (get b.ongoing_send k)) [
    | inr (v, f) ↦ rw (e, f, remove_send_record) (ongoing v e f)
    | inl f ↦ rw (e, f, remove_send_record) (absent e f)
  ]
]

-- The record of an ongoing send after a chunk was read, and the state once the chunk is queued.
abbrev pub sent_chunk : World → OngoingFileSend → Bytes → OngoingFileSend
sent_chunk w v buf = record v {
  last_active = w.now;
  bytes_sent = wrapping_add v.bytes_sent (length buf);
}

pub progress_ongoing_send_cases {ℓ} :
    (P : Behaviour → Type ℓ) (w : World) (b : Behaviour) (k : ℕ)
    → (get b.ongoing_send k ≡ none → P b)
    → ((v : OngoingFileSend)
        → get b.ongoing_send k ≡ some v
        → w.read v.file_handle file_chunk_size ≡ none
        → P (record b { ongoing_send = remove b.ongoing_send k }))
    → ((v : OngoingFileSend) (buf : Bytes)
        → get b.ongoing_send k ≡ some v
        → w.read v.file_handle file_chunk_size ≡ some buf
        → length buf ≡ 0
        → P (record (notify b v.remote (file_chunk v.local_send_id buf)) {
          ongoing_send = remove b.ongoing_send k;
        }))
    → ((v : OngoingFileSend) (buf : Bytes)
        → get b.ongoing_send k ≡ some v
        → w.read v.file_handle file_chunk_size ≡ some buf
        → length buf ≢ 0
        → P (record (notify b v.remote (file_chunk v.local_send_id buf)) {
          ongoing_send = insert b.ongoing_send k (sent_chunk w v buf);
        }))
    → P (progress_ongoing_send w b k)
unfolding progress_ongoing_send
progress_ongoing_send_cases P w b k absent unreadable ended more =
    elim (Option-cases (get b.ongoing_send k)) [
      | inl e ↦ rw (e, progress_ongoing_send) (absent e)
      | inr (v, e) ↦ elim (Option-cases (w.read v.file_handle file_chunk_size)) [
        | inl f ↦ rw (e, f, progress_ongoing_send) (unreadable v e f)
        | inr (buf, f) ↦ elim (Bool-cases (length buf == 0)) [
          | inl z ↦ rw (e, f, z, progress_ongoing_send) (ended v buf e f (ground arith))
          | inr z ↦ rw (e, f, z, progress_ongoing_send) (more v buf e f (ground arith))
        ]
      ]
    ]

-- The record that an accepted pending send turns into.
abbrev pub started_send : World → PendingSend → OngoingFileSend
started_send w v = record {
  local_send_id = v.local_send_id;
  remote = v.remote;
  bytes_sent = 0;
  bytes_total = v.bytes_total;
  file_handle = v.file;
  file_path = v.file_path;
  last_active = w.now;
}

abbrev pub start_send : World → Behaviour → ℕ → PendingSend → Behaviour
start_send w b k v = record b {
  pending_send = remove b.pending_send k;
  ongoing_send = insert b.ongoing_send v.local_send_id (started_send w v);
}

pub pending_send_accepted_cases {ℓ} :
    (P : Run (Option ℕ × Behaviour) → Type ℓ) (w : World) (b : Behaviour) (k : ℕ)
    → ((v : PendingSend)
        → get b.pending_send k ≡ some v
        → P (
            done
              (some v.bytes_total, progress_ongoing_send w (start_send w b k v) v.local_send_id)))
    → ((v : OngoingFileSend)
        → get b.pending_send k ≡ none
        → get b.ongoing_send k ≡ some v
        → P panicked)
    → (get b.pending_send k ≡ none → get b.ongoing_send k ≡ none → P (done (none, b)))
    → P (pending_send_accepted w b k)
unfolding pending_send_accepted
pending_send_accepted_cases P w b k pending ongoing absent =
    elim (Option-cases (get b.pending_send k)) [
      | inr (v, e) ↦ rw (e, pending_send_accepted) (pending v e)
      | inl e ↦ elim (Option-cases (get b.ongoing_send k)) [
        | inr (v, f) ↦ rw (e, f, pending_send_accepted) (ongoing v e f)
        | inl f ↦ rw (e, f, pending_send_accepted) (absent e f)
      ]
    ]

-- The record of a send that is queued, and the state with it.
abbrev pub queued_send : World → Behaviour → FileHandle → FilePath → PeerId → ℕ → PendingSend
queued_send w b file path to total = record {
  local_send_id = b.send_counter;
  remote = to;
  file_path = path;
  bytes_total = total;
  file = file;
  timestamp = w.now;
}

-- The state once an id is taken.
abbrev pub with_send_id : Behaviour → Behaviour
with_send_id b = record b { send_counter = wrapping_add b.send_counter 1 }

pub send_file_cases {ℓ} :
    (P : Run Behaviour → Type ℓ) (w : World) (b : Behaviour) (file : FileHandle) (path : FilePath)
    (to : PeerId) (callback : Callback)
    → (contains to b.connected_peers ≡ false
        → w.listening callback ≡ true
        → P (done (reply (with_send_id b) (send_failed callback FileSendError.peer_not_found))))
    → (contains to b.connected_peers ≡ false → w.listening callback ≡ false → P panicked)
    → (contains to b.connected_peers ≡ true
        → w.metadata_len file ≡ none
        → P (done (with_send_id b)))
    → ((total : ℕ)
        → contains to b.connected_peers ≡ true
        → w.metadata_len file ≡ some total
        → w.file_name path ≡ none
        → P panicked)
    → ((total : ℕ) (name : String)
        → contains to b.connected_peers ≡ true
        → w.metadata_len file ≡ some total
        → w.file_name path ≡ some name
        → P (
            done (
              notify
                (record (with_send_id b) {
                  pending_send =
                      insert b.pending_send b.send_counter (queued_send w b file path to total);
                })
                to
                (new_file_send name b.send_counter callback total))))
    → P (send_file w b file path to callback)
unfolding send_file
send_file_cases P w b file path to callback refused deaf unread nameless queued =
    elim (Bool-cases (contains to b.connected_peers)) [
      | inr c ↦ elim (Bool-cases (w.listening callback)) [
        | inl l ↦ rw (c, l, send_file) (refused c l)
        | inr l ↦ rw (c, l, send_file) (deaf c l)
      ]
      | inl c ↦ elim (Option-cases (w.metadata_len file)) [
        | inl m ↦ rw (c, m, send_file) (unread c m)
        | inr (total, m) ↦ elim (Option-cases (w.file_name path)) [
          | inl n ↦ rw (c, m, n, send_file) (nameless total c m n)
          | inr (name, n) ↦ rw (c, m, n, send_file) (queued total name c m n)
        ]
      ]
    ]

pub cancel_send_cases {ℓ} :
    (P : Bool × Behaviour → Type ℓ) (b : Behaviour) (k : ℕ)
    → ((v : PendingSend)
        → get b.pending_send k ≡ some v
        → P (
          true,
          notify
              (record b { pending_send = remove b.pending_send k })
              v.remote
              (local_cancel_send k),
        ))
    → ((v : OngoingFileSend)
        → get b.pending_send k ≡ none
        → get b.ongoing_send k ≡ some v
        → P (
          true,
          notify
              (record b { ongoing_send = remove b.ongoing_send k })
              v.remote
              (local_cancel_send k),
        ))
    → (get b.pending_send k ≡ none → get b.ongoing_send k ≡ none → P (false, b))
    → P (cancel_send_by_local_send_id b k)
unfolding cancel_send_by_local_send_id
cancel_send_cases P b k pending ongoing absent =
    remove_send_record_cases
      (λ r. P (elim r.0 as (λ _. Bool × Behaviour) [
        | some remote ↦ (true, notify r.1 remote (local_cancel_send k))
        | none ↦ (false, r.1)
      ]))
      b k pending ongoing absent
