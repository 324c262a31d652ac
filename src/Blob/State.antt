-- ===== src/Blob/State.antt =====
-- The state of protocols/owlnest-blob/src/behaviour.rs: records of transfers and `Behaviour`.
use owl_nest.Base.{ℕ, String, true, false, List, ◌∷◌, [], ◌++◌, nat_key}
use owl_nest.Base.Table.{Table, empty}
use owl_nest.Blob.Types.{
  PeerId, FileHandle, FilePath, Bytes, Config, OutEvent, FromBehaviourEvent, ToSwarm,
  notify_handler, RecvInfo, SendInfo, Reply, Run, ◌>>=◌, done, World, unwrap,
}

pub record PendingRecv : Type 0 where
  pub local_recv_id : ℕ
  pub remote_send_id : ℕ
  pub bytes_total : ℕ
  pub file_name : String
  pub remote : PeerId
  pub timestamp : ℕ

pub record OngoingFileRecv : Type 0 where
  pub remote_send_id : ℕ
  pub local_recv_id : ℕ
  pub remote : PeerId
  pub bytes_received : ℕ
  pub bytes_total : ℕ
  pub file_handle : FileHandle
  pub file_path : FilePath
  pub last_active : ℕ

pub record PendingSend : Type 0 where
  pub local_send_id : ℕ
  pub remote : PeerId
  pub file_path : FilePath
  pub bytes_total : ℕ
  pub file : FileHandle
  pub timestamp : ℕ

pub record OngoingFileSend : Type 0 where
  pub local_send_id : ℕ
  pub remote : PeerId
  pub bytes_sent : ℕ
  pub bytes_total : ℕ
  pub file_handle : FileHandle
  pub file_path : FilePath
  pub last_active : ℕ

-- `replies` and `written` are no fields of the source: they record what was sent on callbacks and
-- the bytes that the operating system took, both in order. The throttle's timer is an argument of
-- `poll`.
pub record Behaviour : Type 0 where
  pub config : Config
  pub out_events : List OutEvent
  pub pending_handler_event : List ToSwarm
  pub connected_peers : List PeerId
  pub recv_counter : ℕ
  pub send_counter : ℕ
  pub pending_recv : Table ℕ PendingRecv
  pub pending_send : Table ℕ PendingSend
  pub ongoing_recv : Table ℕ OngoingFileRecv
  pub ongoing_send : Table ℕ OngoingFileSend
  pub replies : List Reply
  pub written : List (FileHandle × Bytes)

unfoldable pub new : Config → Behaviour
new config = record {
  config = config;
  out_events = [];
  pending_handler_event = [];
  connected_peers = [];
  recv_counter = 0;
  send_counter = 0;
  pending_recv = empty;
  pending_send = empty;
  ongoing_recv = empty;
  ongoing_send = empty;
  replies = [];
  written = [];
}

-- `push_back` on the three queues of effects.
abbrev pub emit : Behaviour → OutEvent → Behaviour
emit b ev = record b { out_events = b.out_events ++ ev ∷ [] }

abbrev pub notify : Behaviour → PeerId → FromBehaviourEvent → Behaviour
notify b peer ev = record b {
  pending_handler_event = b.pending_handler_event ++ notify_handler peer ev ∷ [];
}

abbrev pub reply : Behaviour → Reply → Behaviour
reply b r = record b { replies = b.replies ++ r ∷ [] }

unfoldable pub pending_recv_info : PendingRecv → RecvInfo
pending_recv_info v = record {
  local_recv_id = v.local_recv_id;
  bytes_total = v.bytes_total;
  bytes_received = 0;
  file_name = v.file_name;
  remote = v.remote;
  timestamp = v.timestamp;
}

-- `file_name().unwrap()` panics where the path ends in no name.
unfoldable pub ongoing_recv_info : World → OngoingFileRecv → Run RecvInfo
ongoing_recv_info w v = do
  name ← unwrap (w.file_name v.file_path)
  done (record {
    local_recv_id = v.local_recv_id;
    bytes_total = v.bytes_total;
    bytes_received = v.bytes_received;
    file_name = name;
    remote = v.remote;
    timestamp = v.last_active;
  })

unfoldable pub pending_send_info : PendingSend → SendInfo
pending_send_info v = record {
  local_send_id = v.local_send_id;
  bytes_sent = 0;
  bytes_total = v.bytes_total;
  started = false;
  remote = v.remote;
  file_path = v.file_path;
}

unfoldable pub ongoing_send_info : OngoingFileSend → SendInfo
ongoing_send_info v = record {
  local_send_id = v.local_send_id;
  bytes_sent = v.bytes_sent;
  bytes_total = v.bytes_total;
  started = true;
  remote = v.remote;
  file_path = v.file_path;
}
