-- ===== src/Blob/Front/Examples.antt =====
-- The user's handle of the file transfer at concrete inputs, on a small file system.
use owl_nest.Base.{ok, err}
use owl_nest.Base.{
  ℕ, ◌≡◌, refl, Bool, ◌||◌, List, [], ◌∷◌, ◌++◌, some, none, arith, ◌==◌, text_key, nat_key,
  contains, if◌then◌else◌, is_some,
}
use owl_nest.Base.Table.{get}
use owl_nest.Blob.Types.{
  FilePath, FileSendError, FileRecvError, Returns, done, World, notify_handler, local_cancel_recv,
}
use owl_nest.Blob.Send.{send_file as queue_file, progress_ongoing_send}
use owl_nest.Blob.Behaviour.{push_event}
use owl_nest.Blob.Examples.{world, sample, sample-WellFormed, first, second}
use owl_nest.Blob.Front.{
  ErrorKind, not_found, other, kind_name, FileSystem, acknowledged, held, send_answer, offered_id,
  recv_answer, is_accepting, cancel_answer, request_send, send_file, recv_file, cancel_send,
  cancel_recv,
}
use owl_nest.Blob.Front.Sends
use owl_nest.Blob.Front.Recvs
use owl_nest.Blob.Front.Cancels.{cancel_result, cancel_send-stops, cancel_recv-drops_other}

-- A disk is the list of the paths where there is something. The path "home" is a directory, "secret"
-- cannot be opened, and any other file has the handle 3.
abbrev exists : List FilePath → FilePath → Bool
exists d path = path == "home" || contains path d

abbrev small_fs : FileSystem
small_fs = record {
  Disk = List FilePath;
  is_dir = λ d path. path == "home";
  open_read = λ d path.
      if path == "secret"
      then err ErrorKind.permission_denied
      else if exists d path
      then ok 3
      else err not_found;
  create_new =
      λ d path. if exists d path then (err (other "AlreadyExists"), d) else (ok 3, path ∷ d);
}

small_fs-IsLawful : Recvs.IsLawful small_fs exists
unfolding contains
small_fs-IsLawful = record {
  creates = λ d path file e. ground (arith, text_key.same_iff path path);
  never_replaces = λ d path e. (other "AlreadyExists", rw e refl);
  directory_exists = λ d path e. rw e refl;
}

IsFresh-send : Sends.IsFresh 9 sample
unfolding send_answer offered_id
IsFresh-send = record { unanswered = refl; unsent = refl }

IsFresh-recv : Recvs.IsFresh 9 sample
unfolding recv_answer is_accepting
IsFresh-recv = record { unanswered = refl; unsent = refl }

send_file-offered_example :
    send_file small_fs world (acknowledged 2) ("a" ∷ []) sample 7 "a" 9
    ≡ done (ok 1, Sends.offered world sample 3 "a" 7 9 5 "a")
unfolding contains
send_file-offered_example =
    Sends.send_file-offered world sample 9 IsFresh-send small_fs ("a" ∷ []) (acknowledged 2) 7 "a" 3
      5 "a" refl refl refl refl refl

send_file-Refused_example :
    Returns
      (λ r. (r.0 ≡ err FileSendError.peer_not_found) × (r.1.pending_send ≡ sample.pending_send))
      (send_file small_fs world held ("a" ∷ []) sample 8 "a" 9)
unfolding contains send_file request_send push_event queue_file
send_file-Refused_example =
    let (e, same, _, _) =
      Sends.send_file-Refused world sample 9 IsFresh-send small_fs ("a" ∷ []) held 8 "a"
        FileSendError.peer_not_found refl refl in
    (e, same)

-- The wrong id first, then the right one.
recv_file-spoils_example :
    (kind : ErrorKind) × (recv_file small_fs world (acknowledged 2) ("x" ∷ []) sample 1 "x" 10
      ≡ ("x" ∷ [], done (err (FileRecvError.fs_error "x" (kind_name kind)), sample)))
unfolding contains get
recv_file-spoils_example =
    let (_, kind, refused) =
      Recvs.recv_file-spoils small_fs exists world world (acknowledged 2) (acknowledged 2) []
        ("x" ∷ []) sample sample 5 1 "x" 9 10 3 small_fs-IsLawful IsFresh-recv refl refl in
    (kind, refused)

cancel_send-stops_example :
    Returns
      (λ r.
        (r.0
          ≡ cancel_result
              (is_some (get sample.pending_send 0) || is_some (get sample.ongoing_send 0)))
        × ((j : ℕ) → get r.1.pending_send j ≡ (if 0 == j then none else get sample.pending_send j))
        × ((j : ℕ) → get r.1.ongoing_send j ≡ (if 0 == j then none else get sample.ongoing_send j))
        × ((u : World) → progress_ongoing_send u r.1 0 ≡ r.1))
      (cancel_send world sample 0 9)
unfolding cancel_answer
cancel_send-stops_example = cancel_send-stops world sample 0 9 sample-WellFormed refl

cancel_recv-drops_other_example :
    Returns
      (λ x.
        (x.0 ≡ ok tt)
        × (get x.1.ongoing_recv 0 ≡ none)
        × (get x.1.ongoing_recv 40 ≡ some first)
        × (x.1.pending_handler_event
            ≡ sample.pending_handler_event ++ notify_handler 8 (local_cancel_recv 0) ∷ []))
      (cancel_recv world sample 0 9)
unfolding cancel_answer get
cancel_recv-drops_other_example =
    cancel_recv-drops_other world sample 40 first second 9 sample-WellFormed refl refl (omega arith)
      refl
