-- ===== src/Blob/Front/Sends.antt =====
-- What `send_file` of owlnest/src/net/p2p/protocols/blob.rs gives back, and what is left in the
-- behaviour then.
use owl_nest.Base.{Result, ok, err}
use owl_nest.Base.{
  ℕ, String, ◌≡◌, refl, true, false, Option, none, some, List, [], ◌∷◌, ◌++◌, contains, nat_key,
  if◌then◌else◌, arith, Bool-cases, inl, inr,
}
use owl_nest.Base.Table.{insert}
use owl_nest.Blob.Types.{
  PeerId, FileHandle, FilePath, Callback, OperationError, FileSendError, ToSwarm, notify_handler,
  FromBehaviourEvent, Reply, send_failed, World, Run, done, panicked, Returns, ◌>>=◌,
}
use owl_nest.Blob.State.{Behaviour, reply}
use owl_nest.Blob.Behaviour.{push_event}
use owl_nest.Blob.Cases.{send_file_cases, queued_send, with_send_id}
use owl_nest.Blob.Front.{
  ErrorKind, FileSystem, Fate, acknowledged, dropped, held, Awaited, answered, closed, send_answer,
  offered_id, await_send, with_timeout, request_send, send_file, open_error,
}

pub send_answer-append :
    (c : Callback) (rs : List Reply) (r : Reply)
    → send_answer c rs ≡ none
    → send_answer c (rs ++ r ∷ []) ≡ send_answer c (r ∷ [])
unfolding send_answer
send_answer-append c [] r e = refl
send_answer-append c (send_failed k x ∷ rs) r e = ground (arith, send_answer-append c rs r)
send_answer-append c (_ ∷ rs) r e = send_answer-append c rs r e

pub offered_id-append :
    (c : Callback) (evs : List ToSwarm) (ev : ToSwarm)
    → offered_id c evs ≡ none
    → offered_id c (evs ++ ev ∷ []) ≡ offered_id c (ev ∷ [])
unfolding offered_id
offered_id-append c [] ev e = refl
offered_id-append c (notify_handler peer (FromBehaviourEvent.new_file_send name id k total) ∷ evs)
      ev e =
    ground (arith, offered_id-append c evs ev)
offered_id-append c (_ ∷ evs) ev e = offered_id-append c evs ev e

-- Nothing in the behaviour knows the channel of a call that has not been made yet.
pub record IsFresh (callback : Callback) (b : Behaviour) : Type 0 where
  pub unanswered : send_answer callback b.replies ≡ none
  pub unsent : offered_id callback b.pending_handler_event ≡ none

-- The behaviour once it has queued the send of a file of this size and name.
abbrev pub offered :
    World → Behaviour → FileHandle → FilePath → PeerId → Callback → ℕ → String → Behaviour
offered w b file path to callback total name = record (with_send_id b) {
  pending_send = insert b.pending_send b.send_counter (queued_send w b file path to total);
  pending_handler_event =
      b.pending_handler_event
      ++ notify_handler to (FromBehaviourEvent.new_file_send name b.send_counter callback total)
        ∷ [];
}

module _ (w : World) (b : Behaviour) (callback : Callback) (fresh : IsFresh callback b) where
  open fresh use {unanswered, unsent}

  await_send-offered :
      (fate : Fate) (file : FileHandle) (path : FilePath) (to : PeerId) (total : ℕ) (name : String)
      → await_send fate callback (offered w b file path to callback total name) ≡ elim fate [
        | acknowledged rtt ↦ answered (ok b.send_counter)
        | dropped ↦ closed
        | held ↦ Awaited.waiting
      ]
  unfolding await_send offered_id
  await_send-offered fate file path to total name =
      rw
        (
          unanswered,
          offered_id-append callback b.pending_handler_event
              (notify_handler to
                (FromBehaviourEvent.new_file_send name b.send_counter callback total))
              unsent,
          await_send,
        )
        (ground arith)

  -- What a queued send gives back.
  abbrev pub offered_result : Fate → Behaviour → Run (Result FileSendError ℕ × Behaviour)
  offered_result (acknowledged rtt) b' = done (ok b.send_counter, b')
  offered_result dropped b' = panicked
  offered_result held b' = done (err (FileSendError.operation OperationError.timeout), b')

  with_timeout-offered :
      (f : Fate) (b' : Behaviour)
      → (with_timeout (elim f [
        | acknowledged rtt ↦ answered (ok b.send_counter)
        | dropped ↦ closed
        | held ↦ Awaited.waiting
      ])
          >>= λ r. done (r, b'))
        ≡ offered_result f b'
  with_timeout-offered (acknowledged rtt) b' = refl
  with_timeout-offered dropped b' = refl
  with_timeout-offered held b' = refl

  module _ (fate : Fate) (file : FileHandle) (path : FilePath) (to : PeerId) where
    request_send-offered :
        (total : ℕ) (name : String)
        → contains to b.connected_peers ≡ true
        → w.metadata_len file ≡ some total
        → w.file_name path ≡ some name
        → request_send w fate b file path to callback
          ≡ offered_result fate (offered w b file path to callback total name)
    unfolding request_send push_event
    request_send-offered total name connected sized named =
        let taken =
          send_file_cases (λ r. r ≡ done (offered w b file path to callback total name)) w b file
            path to callback (λ c l. cc) (λ c l. cc) (λ c m. cc) (λ t c m n. cc)
            (λ t x c m n. ground arith) in
        rw (taken, await_send-offered fate file path to total name)
          (with_timeout-offered fate (offered w b file path to callback total name))

    request_send-unconnected :
        w.listening callback ≡ true
        → contains to b.connected_peers ≡ false
        → request_send w fate b file path to callback
          ≡ done (
            err FileSendError.peer_not_found,
            reply (with_send_id b) (send_failed callback FileSendError.peer_not_found),
          )
    unfolding request_send push_event await_send send_answer
    request_send-unconnected listening unconnected =
        let refused = send_failed callback FileSendError.peer_not_found in
        let taken =
          send_file_cases (λ r. r ≡ done (reply (with_send_id b) refused)) w b file path to callback
            (λ c l. refl) (λ c l. cc) (λ c m. cc) (λ t c m n. cc) (λ t x c m n. cc) in
        rw (taken, await_send, send_answer-append callback b.replies refused unanswered)
          (ground arith)

    -- A file of a connected peer of which the size cannot be read: the behaviour drops the callback
    -- without an answer.
    request_send-unsized :
        contains to b.connected_peers ≡ true
        → w.metadata_len file ≡ none
        → request_send w fate b file path to callback ≡ panicked
    unfolding request_send push_event await_send
    request_send-unsized connected unsized =
        let taken =
          send_file_cases (λ r. r ≡ done (with_send_id b)) w b file path to callback (λ c l. cc)
            (λ c l. cc) (λ c m. refl) (λ t c m n. cc) (λ t x c m n. cc) in
        rw (taken, await_send, unanswered, unsent) refl

  module _ (fs : FileSystem) (d : fs.Disk) (fate : Fate) (to : PeerId) (path : FilePath) where
    -- A file that can be opened and read, offered to a connected peer: the user gets the id of the
    -- send if the handler answers in time, panics if the handler drops the callback, and gets a
    -- timeout otherwise. When the user gets an answer, a timeout included, the send is queued under
    -- the next id, with the offer on its way to the handler.
    pub send_file-offered :
        (file : FileHandle) (total : ℕ) (name : String)
        → fs.is_dir d path ≡ false
        → fs.open_read d path ≡ ok file
        → contains to b.connected_peers ≡ true
        → w.metadata_len file ≡ some total
        → w.file_name path ≡ some name
        → send_file fs w fate d b to path callback
          ≡ offered_result fate (offered w b file path to callback total name)
    unfolding send_file
    send_file-offered file total name not_dir opened connected sized named =
        rw (not_dir, opened, send_file)
          (request_send-offered fate file path to total name connected sized named)

    -- A file that can be opened and whose size cannot be read makes the user's call panic, if the
    -- peer is connected.
    pub send_file-panics :
        (file : FileHandle)
        → fs.is_dir d path ≡ false
        → fs.open_read d path ≡ ok file
        → contains to b.connected_peers ≡ true
        → w.metadata_len file ≡ none
        → send_file fs w fate d b to path callback ≡ panicked
    unfolding send_file
    send_file-panics file not_dir opened connected unsized =
        rw (not_dir, opened, send_file) (request_send-unsized fate file path to connected unsized)

    -- Why a send is refused before anything is offered, if it is.
    abbrev pub refusal : Option FileSendError
    refusal =
        if fs.is_dir d path then some FileSendError.is_directory else elim (fs.open_read d path) [
          | err kind ↦ some (open_error kind)
          | ok file ↦
              if contains to b.connected_peers then none else some FileSendError.peer_not_found
        ]

    -- The user is told why, and no transfer was started, changed or offered to a peer.
    abbrev pub Refused : FileSendError → Run (Result FileSendError ℕ × Behaviour) → Type 0
    Refused e run =
        Returns
          (λ r.
            (r.0 ≡ err e)
            × (r.1.pending_send ≡ b.pending_send)
            × (r.1.ongoing_send ≡ b.ongoing_send)
            × (r.1.pending_handler_event ≡ b.pending_handler_event))
          run

    Refused-after_open :
        (e : FileSendError) (o : Result ErrorKind FileHandle)
        → fs.is_dir d path ≡ false
        → fs.open_read d path ≡ o
        → w.listening callback ≡ true
        → refusal ≡ some e
        → Refused e (send_file fs w fate d b to path callback)
    unfolding send_file
    Refused-after_open e (err kind) not_dir unopened listening why =
        rw (not_dir, unopened, send_file) (ground arith)
    Refused-after_open e (ok file) not_dir opened listening why =
        elim (Bool-cases (contains to b.connected_peers)) [
          | inl connected ↦ ground arith
          | inr unconnected ↦
              rw
                (
                  not_dir,
                  opened,
                  send_file,
                  request_send-unconnected fate file path to listening unconnected,
                )
                (ground arith)
        ]

    -- A directory, a file that cannot be opened, or a peer that is not connected: while the user waits
    -- for the answer, the user is told which of them it is, in this order, whatever the handler does,
    -- and no transfer is started, changed or offered.
    pub send_file-Refused :
        (e : FileSendError)
        → w.listening callback ≡ true
        → refusal ≡ some e
        → Refused e (send_file fs w fate d b to path callback)
    unfolding send_file
    send_file-Refused e listening why = elim (Bool-cases (fs.is_dir d path)) [
      | inl dir ↦ rw (dir, send_file) (ground arith)
      | inr not_dir ↦ Refused-after_open e (fs.open_read d path) not_dir refl listening why
    ]
