-- ===== src/Blob/Front/Recvs.antt =====
-- What `recv_file` of owlnest/src/net/p2p/protocols/blob.rs gives back, and what it leaves on the disk
-- and in the behaviour.
use owl_nest.Base.{Result, ok, err}
use owl_nest.Base.{ℕ, ◌≡◌, refl, Bool, true, false, none, some, List, [], ◌∷◌, ◌++◌, nat_key, arith}
use owl_nest.Base.Table.{get, insert, remove}
use owl_nest.Blob.Types.{
  FileHandle, FilePath, Callback, FileRecvError, pending_recv_not_found, ToSwarm, notify_handler,
  FromBehaviourEvent, accept_file, Reply, recv_failed, World, Run, done, panicked, stuck, ◌>>=◌,
}
use owl_nest.Blob.State.{Behaviour, PendingRecv, reply, notify}
use owl_nest.Blob.Behaviour.{push_event}
use owl_nest.Blob.Cases.{accept_pending_recv_cases, accepted_recv}
use owl_nest.Blob.Front.{
  ErrorKind, kind_name, FileSystem, Fate, acknowledged, dropped, held, Awaited, answered, closed,
  recv_answer, is_accepting, await_recv, handle_callback, request_recv, recv_file,
}

pub recv_answer-append :
    (c : Callback) (rs : List Reply) (r : Reply)
    → recv_answer c rs ≡ none
    → recv_answer c (rs ++ r ∷ []) ≡ recv_answer c (r ∷ [])
unfolding recv_answer
recv_answer-append c [] r e = refl
recv_answer-append c (recv_failed k x ∷ rs) r e = ground (arith, recv_answer-append c rs r)
recv_answer-append c (_ ∷ rs) r e = recv_answer-append c rs r e

pub is_accepting-append :
    (c : Callback) (evs : List ToSwarm) (ev : ToSwarm)
    → is_accepting c evs ≡ false
    → is_accepting c (evs ++ ev ∷ []) ≡ is_accepting c (ev ∷ [])
unfolding is_accepting
is_accepting-append c [] ev e = refl
is_accepting-append c (notify_handler peer (FromBehaviourEvent.accept_file id k) ∷ evs) ev e =
    ground (arith, is_accepting-append c evs ev)
is_accepting-append c (_ ∷ evs) ev e = is_accepting-append c evs ev e

-- Nothing in the behaviour knows the channel of a call that has not been made yet.
pub record IsFresh (callback : Callback) (b : Behaviour) : Type 0 where
  pub unanswered : recv_answer callback b.replies ≡ none
  pub unsent : is_accepting callback b.pending_handler_event ≡ false

-- What is documented of `create_new`: it makes a new file, and where there is anything already, a
-- directory as well, it fails and changes nothing.
pub record IsLawful (fs : FileSystem) (exists : fs.Disk → FilePath → Bool) : Type 0 where
  pub creates :
      (d : fs.Disk) (path : FilePath) (file : FileHandle)
      → (fs.create_new d path).0 ≡ ok file
      → exists (fs.create_new d path).1 path ≡ true
  pub never_replaces :
      (d : fs.Disk) (path : FilePath)
      → exists d path ≡ true
      → (kind : ErrorKind) × (fs.create_new d path ≡ (err kind, d))
  pub directory_exists :
      (d : fs.Disk) (path : FilePath) → fs.is_dir d path ≡ true → exists d path ≡ true

-- The behaviour once it has taken an acceptance of this pending receive.
abbrev pub accepted :
    World → Behaviour → FileHandle → ℕ → FilePath → Callback → PendingRecv → Behaviour
accepted w b file k path callback v =
    record (notify b v.remote (accept_file v.remote_send_id callback)) {
      pending_recv = remove b.pending_recv k;
      ongoing_recv = insert b.ongoing_recv v.remote_send_id (accepted_recv w file path k v);
    }

-- What an acceptance that was passed on gives back; it is waited for without a limit.
abbrev pub accepted_result : Fate → Behaviour → Run (Result FileRecvError ℕ × Behaviour)
accepted_result (acknowledged rtt) b = done (ok rtt, b)
accepted_result dropped b = panicked
accepted_result held b = stuck

handle_callback-accepted :
    (f : Fate) (b : Behaviour)
    → (handle_callback (elim f as (λ _. Awaited (Result FileRecvError ℕ)) [
      | acknowledged rtt ↦ answered (ok rtt)
      | dropped ↦ closed
      | held ↦ Awaited.waiting
    ])
        >>= λ r. done (r, b))
      ≡ accepted_result f b
handle_callback-accepted (acknowledged rtt) b = refl
handle_callback-accepted dropped b = refl
handle_callback-accepted held b = refl

module _ (w : World) (b : Behaviour) (callback : Callback) (fresh : IsFresh callback b) where
  open fresh use {unanswered, unsent}

  await_recv-accepted :
      (fate : Fate) (file : FileHandle) (k : ℕ) (path : FilePath) (v : PendingRecv)
      → await_recv fate callback (accepted w b file k path callback v) ≡ elim fate [
        | acknowledged rtt ↦ answered (ok rtt)
        | dropped ↦ closed
        | held ↦ Awaited.waiting
      ]
  unfolding await_recv is_accepting
  await_recv-accepted fate file k path v =
      rw
        (
          unanswered,
          is_accepting-append callback b.pending_handler_event
              (notify_handler v.remote (accept_file v.remote_send_id callback)) unsent,
          await_recv,
        )
        (ground arith)

  request_recv-accepted :
      (fate : Fate) (file : FileHandle) (k : ℕ) (path : FilePath) (v : PendingRecv)
      → get b.pending_recv k ≡ some v
      → request_recv w fate b file k path callback
        ≡ accepted_result fate (accepted w b file k path callback v)
  unfolding request_recv push_event
  request_recv-accepted fate file k path v e =
      let taken =
        accept_pending_recv_cases (λ r. r ≡ accepted w b file k path callback v) w b file path k
          callback (λ f. cc) (λ u f. ground arith) in
      rw (taken, await_recv-accepted fate file k path v)
        (handle_callback-accepted fate (accepted w b file k path callback v))

  request_recv-unknown :
      (fate : Fate) (file : FileHandle) (k : ℕ) (path : FilePath)
      → get b.pending_recv k ≡ none
      → request_recv w fate b file k path callback
        ≡ done (
          err (pending_recv_not_found k),
          reply b (recv_failed callback (pending_recv_not_found k)),
        )
  unfolding request_recv push_event await_recv recv_answer
  request_recv-unknown fate file k path e =
      let refused = recv_failed callback (pending_recv_not_found k) in
      let taken =
        accept_pending_recv_cases (λ r. r ≡ reply b refused) w b file path k callback (λ f. refl)
          (λ u f. cc) in
      rw (taken, await_recv, recv_answer-append callback b.replies refused unanswered)
        (ground arith)

module _ (fs : FileSystem) where
  -- To accept a pending receive, into a file that could be created, makes it an ongoing one under the
  -- sender's id, with the acceptance on its way to the handler; the user gets the handler's answer,
  -- panics if the handler drops the callback and waits for ever if it does neither.
  pub recv_file-accepted :
      (w : World) (fate : Fate) (d d' : fs.Disk) (b : Behaviour) (k : ℕ) (path : FilePath)
      (callback : Callback) (file : FileHandle) (v : PendingRecv)
      → IsFresh callback b
      → fs.create_new d path ≡ (ok file, d')
      → get b.pending_recv k ≡ some v
      → recv_file fs w fate d b k path callback
        ≡ (d', accepted_result fate (accepted w b file k path callback v))
  unfolding recv_file
  recv_file-accepted w fate d d' b k path callback file v fresh created e =
      rw (created, recv_file)
        (rw (request_recv-accepted w b callback fresh fate file k path v e) refl)

  -- A path where there is a directory is refused, whatever receive was meant: the user gets an error
  -- of the file system, and neither the disk nor the behaviour changes.
  pub recv_file-directory :
      (exists : fs.Disk → FilePath → Bool) (w : World) (fate : Fate) (d : fs.Disk) (b : Behaviour)
      (k : ℕ) (path : FilePath) (callback : Callback)
      → IsLawful fs exists
      → fs.is_dir d path ≡ true
      → (kind : ErrorKind) × (recv_file fs w fate d b k path callback
          ≡ (d, done (err (FileRecvError.fs_error path (kind_name kind)), b)))
  unfolding recv_file
  recv_file-directory exists w fate d b k path callback lawful dir =
      let (kind, refused) = lawful.never_replaces d path (lawful.directory_exists d path dir) in
      (kind, rw (refused, recv_file) refl)

  -- A receive that is not pending is answered with an error, but its file has been created: whatever
  -- receive is to be written to that path next, with the disk as it was left, is refused as well,
  -- with an error of the file system.
  pub recv_file-spoils :
      (exists : fs.Disk → FilePath → Bool) (w u : World) (fate later : Fate) (d d' : fs.Disk)
      (b c : Behaviour) (k j : ℕ) (path : FilePath) (callback next : Callback) (file : FileHandle)
      → IsLawful fs exists
      → IsFresh callback b
      → fs.create_new d path ≡ (ok file, d')
      → get b.pending_recv k ≡ none
      → (recv_file fs w fate d b k path callback ≡ (
        d',
        done (
          err (pending_recv_not_found k),
          reply b (recv_failed callback (pending_recv_not_found k)),
        ),
      ))
        × (kind : ErrorKind) × (recv_file fs u later d' c j path next
            ≡ (d', done (err (FileRecvError.fs_error path (kind_name kind)), c)))
  unfolding recv_file
  recv_file-spoils exists w u fate later d d' b c k j path callback next file lawful fresh created
        e =
      let there = rw created at (lawful.creates d path file) in
      let (kind, refused) = lawful.never_replaces d' path (there refl) in
      (
        rw (created, recv_file)
            (rw (request_recv-unknown w b callback fresh fate file k path e) refl),
        kind,
        rw (refused, recv_file) refl,
      )
