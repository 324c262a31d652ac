-- ===== src/Blob/Front.antt =====
-- The handle of owlnest/src/net/p2p/protocols/blob.rs, through which the user sends and accepts files:
-- what it does before the behaviour gets a request, and what the user gets back. The file system and
-- the handler of the connection are parameters. A callback is the sending end of a channel of which the
-- user holds the other end; whoever owns it and drops it unused closes the channel.
pub mod Sends
pub mod Recvs
pub mod Cancels
pub mod Listing
pub mod Examples
use owl_nest.Base.{
  Result, ok, err, ℕ, String, Bool, true, false, Option, none, some, List, [], ◌∷◌, if◌then◌else◌,
  ◌==◌, nat_key,
}
use owl_nest.Blob.Types.{
  PeerId, FileHandle, FilePath, Callback, OperationError, FileSendError, FileRecvError,
  CancellationError, InEvent, ToSwarm, notify_handler, generate_event, FromBehaviourEvent, Reply,
  send_failed, recv_failed, cancelled, cancel_failed, World, Run, done, panicked, stuck, ◌>>=◌,
}
use owl_nest.Blob.State.{Behaviour}
use owl_nest.Blob.Behaviour.{push_event}

-- `std::io::ErrorKind`; all kinds that the handle does not name are `other`, with their name.
pub data ErrorKind : Type 0 where
  not_found permission_denied : ErrorKind
  other : String → ErrorKind

-- The kind's name, which stands for it in the model's `FileRecvError`.
abbrev pub kind_name : ErrorKind → String
kind_name not_found = "NotFound"
kind_name permission_denied = "PermissionDenied"
kind_name (other name) = name

-- What the handle uses of `std::path` and `std::fs`: `Path::is_dir`, and `OpenOptions::open` with
-- `read`, and with `create_new`, `read` and `write`.
pub record FileSystem : Type 1 where
  pub Disk : Type 0
  pub is_dir : Disk → FilePath → Bool
  pub open_read : Disk → FilePath → Result ErrorKind FileHandle
  pub create_new : Disk → FilePath → Result ErrorKind FileHandle × Disk

-- What the handler of the connection does with a callback that it was handed, until the user stops
-- waiting: it answers, it drops the callback with the stream, or it still holds it.
pub data Fate : Type 0 where
  acknowledged : ℕ → Fate
  dropped : Fate
  held : Fate

-- What the receiving end of a callback gives.
pub data Awaited (A : Type 0) : Type 0 where
  answered : A → Awaited A
  closed : Awaited A
  waiting : Awaited A

abbrev pub open_error : ErrorKind → FileSendError
open_error not_found = FileSendError.file_not_found
open_error permission_denied = FileSendError.permission_denied
open_error (other name) = FileSendError.other_fs_error name

-- The answer that the behaviour has sent on a callback.
unfoldable pub send_answer : Callback → List Reply → Option FileSendError
send_answer callback [] = none
send_answer callback (send_failed c e ∷ rest) =
    let later = send_answer callback rest in if c == callback then some e else later
send_answer callback (_ ∷ rest) = send_answer callback rest

unfoldable pub recv_answer : Callback → List Reply → Option FileRecvError
recv_answer callback [] = none
recv_answer callback (recv_failed c e ∷ rest) =
    let later = recv_answer callback rest in if c == callback then some e else later
recv_answer callback (_ ∷ rest) = recv_answer callback rest

unfoldable pub cancel_answer : Callback → List Reply → Option (Result CancellationError (Unit {0}))
cancel_answer callback [] = none
cancel_answer callback (cancelled c ∷ rest) =
    let later = cancel_answer callback rest in if c == callback then some (ok tt) else later
cancel_answer callback (cancel_failed c e ∷ rest) =
    let later = cancel_answer callback rest in if c == callback then some (err e) else later
cancel_answer callback (_ ∷ rest) = cancel_answer callback rest

-- The id that the handler answers with, if a request with the callback is on its way to it.
unfoldable pub offered_id : Callback → List ToSwarm → Option ℕ
offered_id callback [] = none
offered_id callback
      (notify_handler peer (FromBehaviourEvent.new_file_send name id c total) ∷ rest) =
    let later = offered_id callback rest in if c == callback then some id else later
offered_id callback (_ ∷ rest) = offered_id callback rest

unfoldable pub is_accepting : Callback → List ToSwarm → Bool
is_accepting callback [] = false
is_accepting callback (notify_handler peer (FromBehaviourEvent.accept_file id c) ∷ rest) =
    let later = is_accepting callback rest in if c == callback then true else later
is_accepting callback (_ ∷ rest) = is_accepting callback rest

-- The state of the callback of a send once the behaviour has taken the request: answered, on its way
-- to the handler, or dropped. The handler answers with the id of the send.
unfoldable pub await_send : Fate → Callback → Behaviour → Awaited (Result FileSendError ℕ)
unfolding send_answer offered_id
await_send fate callback b = elim (send_answer callback b.replies) [
  | some e ↦ answered (err e)
  | none ↦ elim (offered_id callback b.pending_handler_event) [
    | none ↦ closed
    | some id ↦ elim fate [
      | acknowledged rtt ↦ answered (ok id)
      | dropped ↦ closed
      | held ↦ waiting
    ]
  ]
]

-- For an acceptance, it answers with a round trip time.
unfoldable pub await_recv : Fate → Callback → Behaviour → Awaited (Result FileRecvError ℕ)
unfolding recv_answer is_accepting
await_recv fate callback b = elim (recv_answer callback b.replies) [
  | some e ↦ answered (err e)
  | none ↦
      if is_accepting callback b.pending_handler_event
      then (elim fate [ acknowledged rtt ↦ answered (ok rtt) | dropped ↦ closed | held ↦ waiting ])
      else closed
]

-- `future_timeout!(rx, 1000)`, and `handle_callback!(rx)`, which waits for ever.
abbrev pub with_timeout : Awaited (Result FileSendError ℕ) → Run (Result FileSendError ℕ)
with_timeout (answered r) = done r
with_timeout closed = panicked
with_timeout waiting = done (err (FileSendError.operation OperationError.timeout))

abbrev pub handle_callback : {A : Type 0} → Awaited A → Run A
handle_callback (answered r) = done r
handle_callback closed = panicked
handle_callback waiting = stuck

-- What follows once a file is open: the request, and the wait for its answer. `callback` is the number
-- of the channel that the call makes.
unfoldable pub request_send :
    World
    → Fate
    → Behaviour
    → FileHandle
    → FilePath
    → PeerId
    → Callback
    → Run (Result FileSendError ℕ × Behaviour)
unfolding await_send
request_send w fate b file path to callback = do
  b' ← push_event w b (InEvent.send_file file path to callback)
  r ← with_timeout (await_send fate callback b')
  done (r, b')

unfoldable pub request_recv :
    World
    → Fate
    → Behaviour
    → FileHandle
    → ℕ
    → FilePath
    → Callback
    → Run (Result FileRecvError ℕ × Behaviour)
unfolding await_recv
request_recv w fate b file recv_id path callback = do
  b' ← push_event w b (InEvent.accept_file file recv_id path callback)
  r ← handle_callback (await_recv fate callback b')
  done (r, b')

module _ (fs : FileSystem) (w : World) (fate : Fate) where
  unfoldable pub send_file :
      fs.Disk → Behaviour → PeerId → FilePath → Callback → Run (Result FileSendError ℕ × Behaviour)
  send_file d b to path callback =
      if fs.is_dir d path
      then done (err FileSendError.is_directory, b)
      else elim (fs.open_read d path) [
        | err kind ↦ done (err (open_error kind), b)
        | ok file ↦ request_send w fate b file path to callback
      ]

  unfoldable pub recv_file :
      fs.Disk
      → Behaviour
      → ℕ
      → FilePath
      → Callback
      → fs.Disk × Run (Result FileRecvError ℕ × Behaviour)
  recv_file d b recv_id path_to_write callback =
      let (created, d') = fs.create_new d path_to_write in
      (
        d',
        elim created [
          | err kind ↦ done (err (FileRecvError.fs_error path_to_write (kind_name kind)), b)
          | ok file ↦ request_recv w fate b file recv_id path_to_write callback
        ],
      )

-- The behaviour answers a cancellation by itself.
abbrev pub await_cancel : Callback → Behaviour → Awaited (Result CancellationError (Unit {0}))
await_cancel callback b = elim (cancel_answer callback b.replies) [
  | some r ↦ answered r
  | none ↦ closed
]

unfoldable pub cancel_send :
    World → Behaviour → ℕ → Callback → Run (Result CancellationError (Unit {0}) × Behaviour)
unfolding cancel_answer
cancel_send w b local_send_id callback = do
  b' ← push_event w b (InEvent.cancel_send local_send_id callback)
  r ← handle_callback (await_cancel callback b')
  done (r, b')

unfoldable pub cancel_recv :
    World → Behaviour → ℕ → Callback → Run (Result CancellationError (Unit {0}) × Behaviour)
unfolding cancel_answer
cancel_recv w b local_recv_id callback = do
  b' ← push_event w b (InEvent.cancel_recv local_recv_id callback)
  r ← handle_callback (await_cancel callback b')
  done (r, b')
