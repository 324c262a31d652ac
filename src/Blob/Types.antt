-- ===== src/Blob/Types.antt =====
-- protocols/owlnest-blob/src/lib.rs, error.rs, config.rs and the events of handler.rs.
-- A peer id, a callback, a file handle and a path are only stored, compared and passed on: the
-- first three are numbers, a path is a text. Tracing spans are left out. A text that `format!`
-- makes of a foreign error is a field of that error here.
use owl_nest.Base.{ℕ, ◌+◌, ◌-◌, ◌*◌, ◌%◌, ◌^◌, String, Bool, List, Option}

abbrev pub PeerId : Type 0
PeerId = ℕ

abbrev pub Callback : Type 0
Callback = ℕ

abbrev pub FileHandle : Type 0
FileHandle = ℕ

abbrev pub FilePath : Type 0
FilePath = String

abbrev pub Bytes : Type 0
Bytes = List ℕ

abbrev pub u64_mod : ℕ
u64_mod = 2 ^ 64

-- `a + b` and `a - b` on u64, as a release build computes them.
abbrev pub wrapping_add : ℕ → ℕ → ℕ
wrapping_add a b = (a + b) % u64_mod

abbrev pub wrapping_sub : ℕ → ℕ → ℕ
wrapping_sub a b = (a + u64_mod - b) % u64_mod

pub record Config : Type 0 where
  pub timeout_ms : ℕ
  pub max_pending_recv : ℕ
  pub pending_recv_timeout_sec : ℕ
  pub ongoing_recv_timeout_sec : ℕ
  pub pending_send_timeout_sec : ℕ
  pub ongoing_send_timeout_sec : ℕ

abbrev pub default_config : Config
default_config = record {
  timeout_ms = 60 * 1000;
  max_pending_recv = 16;
  pending_recv_timeout_sec = 60 * 60;
  ongoing_recv_timeout_sec = 60;
  pending_send_timeout_sec = 0;
  ongoing_send_timeout_sec = 3 * 60;
}

pub data Error : Type 0 where
  unrecognized_message : String → Error
  io : String → Error
  channel : Error
  unexpected_eof : ℕ → Error

-- `ChannelError` and `OperationError` of owlnest-core/src/lib.rs.
pub data ChannelError : Type 0 where
  timeout closed : ChannelError

pub data OperationError : Type 0 where
  timeout interrupted : OperationError

pub data FileSendError : Type 0 where
  is_directory : FileSendError
  file_not_found : FileSendError
  permission_denied : FileSendError
  other_fs_error : String → FileSendError
  peer_not_found : FileSendError
  channel : ChannelError → FileSendError
  operation : OperationError → FileSendError

pub data FileRecvError : Type 0 where
  pending_recv_not_found : ℕ → FileRecvError
  timeout : FileRecvError
  fs_error : FilePath → String → FileRecvError
  channel : ChannelError → FileRecvError
  operation : OperationError → FileRecvError

pub data CancellationError : Type 0 where
  id_not_found peer_not_found : CancellationError

pub data InEvent : Type 0 where
  send_file : FileHandle → FilePath → PeerId → Callback → InEvent
  accept_file : FileHandle → ℕ → FilePath → Callback → InEvent
  list_connected : Callback → InEvent
  list_recv : Callback → InEvent
  list_send : Callback → InEvent
  cancel_recv : ℕ → Callback → InEvent
  cancel_send : ℕ → Callback → InEvent

pub data OutEvent : Type 0 where
  incoming_file : PeerId → String → ℕ → ℕ → OutEvent
  recv_progressed : ℕ → ℕ → ℕ → OutEvent
  ongoing_recv_error : ℕ → String → OutEvent
  send_progressed : ℕ → ℕ → ℕ → OutEvent
  ongoing_send_error : ℕ → String → OutEvent
  cancelled_send : ℕ → OutEvent
  cancelled_recv : ℕ → OutEvent
  error : Error → OutEvent
  inbound_negotiated : PeerId → OutEvent
  outbound_negotiated : PeerId → OutEvent
  unsupported : PeerId → OutEvent

-- What the behaviour asks of the handler of one connection.
pub data FromBehaviourEvent : Type 0 where
  new_file_send : String → ℕ → Callback → ℕ → FromBehaviourEvent
  file_chunk : ℕ → Bytes → FromBehaviourEvent
  accept_file : ℕ → Callback → FromBehaviourEvent
  local_cancel_send : ℕ → FromBehaviourEvent
  local_cancel_recv : ℕ → FromBehaviourEvent

-- What a handler reports. The round trip time of `send_progressed` is not read by anybody.
pub data ToBehaviourEvent : Type 0 where
  recv_progressed : ℕ → Bytes → ToBehaviourEvent
  send_progressed : ℕ → ToBehaviourEvent
  incoming_file : String → ℕ → ℕ → ToBehaviourEvent
  file_send_accepted : ℕ → ToBehaviourEvent
  file_send_pending : ℕ → ToBehaviourEvent
  remote_cancel_send : ℕ → ToBehaviourEvent
  remote_cancel_recv : ℕ → ToBehaviourEvent
  error : Error → ToBehaviourEvent
  inbound_negotiated : ToBehaviourEvent
  outbound_negotiated : ToBehaviourEvent
  unsupported : ToBehaviourEvent

-- libp2p's `ToSwarm`, as far as the behaviour builds it; `NotifyHandler::Any` throughout.
pub data ToSwarm : Type 0 where
  generate_event : OutEvent → ToSwarm
  notify_handler : PeerId → FromBehaviourEvent → ToSwarm

pub record RecvInfo : Type 0 where
  pub local_recv_id : ℕ
  pub bytes_total : ℕ
  pub bytes_received : ℕ
  pub file_name : String
  pub remote : PeerId
  pub timestamp : ℕ

pub record SendInfo : Type 0 where
  pub local_send_id : ℕ
  pub bytes_sent : ℕ
  pub bytes_total : ℕ
  pub started : Bool
  pub remote : PeerId
  pub file_path : FilePath

-- One value sent on a callback.
pub data Reply : Type 0 where
  send_failed : Callback → FileSendError → Reply
  recv_failed : Callback → FileRecvError → Reply
  cancelled : Callback → Reply
  cancel_failed : Callback → CancellationError → Reply
  connected : Callback → List PeerId → Reply
  recvs : Callback → List RecvInfo → Reply
  sends : Callback → List SendInfo → Reply

-- One answer of `File::write`.
pub data WriteAnswer : Type 0 where
  wrote : ℕ → WriteAnswer
  write_failed : String → WriteAnswer

-- What the clock, the file system, the path functions of the standard library and the receiving
-- ends of callbacks answer while one operation runs. `read` is given the size of the buffer and
-- is `none` on an error; `writes` are the answers to successive calls of `write`.
pub record World : Type 0 where
  pub now : ℕ
  pub metadata_len : FileHandle → Option ℕ
  pub read : FileHandle → ℕ → Option Bytes
  pub writes : FileHandle → List WriteAnswer
  pub file_name : FilePath → Option String
  pub push_path : FilePath → String → FilePath
  pub listening : Callback → Bool

-- How an operation ends: normally, by a panic, or never.
pub data Run {ℓ} (A : Type ℓ) : Type ℓ where
  done : A → Run A
  panicked : Run A
  stuck : Run A

infixl 5 ◌>>=◌
abbrev pub ◌>>=◌ {ℓ κ} : {A : Type ℓ} {B : Type κ} → Run A → (A → Run B) → Run B
done a >>= f = f a
panicked >>= f = panicked
stuck >>= f = stuck

-- `Option::unwrap` and `Option::expect`.
abbrev pub unwrap {ℓ} : {A : Type ℓ} → Option A → Run A
unwrap Option.none = panicked
unwrap (Option.some a) = done a

-- The run ends normally, with a result of which `P` holds.
abbrev pub Returns {ℓ} : {A : Type ℓ} → (A → Type 0) → Run A → Type 0
Returns P (done a) = P a
Returns P panicked = ⊥
Returns P stuck = ⊥

pub Returns-map {ℓ} :
    {A : Type ℓ} {P Q : A → Type 0} (r : Run A) → ((a : A) → P a → Q a) → Returns P r → Returns Q r
Returns-map (done a) f h = f a h
Returns-map panicked f h = absurd h
Returns-map stuck f h = absurd h
