-- ===== src/Blob/Wire.antt =====
-- The messages of protocols/owlnest-blob/src/protocol/messages.proto, their conversion in handler.rs
-- and what prost promises of their encoding.
use owl_nest.Base.{ℕ, ◌+◌, ◌^◌, ◌<◌, ◌≤◌, ◌≡◌, String, Option, some, length}
use owl_nest.Blob.Types.{Bytes, ToBehaviourEvent}

pub record IncomingFile : Type 0 where
  pub remote_send_id : ℕ
  pub bytes_total : ℕ
  pub file_name : String

pub record AcceptFile : Type 0 where
  pub local_send_id : ℕ

pub record CancelSend : Type 0 where
  pub remote_send_id : ℕ

pub record CancelRecv : Type 0 where
  pub local_send_id : ℕ

pub record FileChunk : Type 0 where
  pub remote_send_id : ℕ
  pub content : Bytes

-- prost's `encode_to_vec` and `decode` for the five messages. A message is read back from its own
-- encoding. A chunk costs a tag and a varint of at most ten bytes for its id, and a tag and a varint
-- of at most three bytes for the length of contents shorter than 2 ^ 21.
pub record Prost : Type 0 where
  pub encode_incoming_file : IncomingFile → Bytes
  pub encode_accept_file : AcceptFile → Bytes
  pub encode_cancel_send : CancelSend → Bytes
  pub encode_cancel_recv : CancelRecv → Bytes
  pub encode_file_chunk : FileChunk → Bytes
  pub decode_incoming_file : Bytes → Option IncomingFile
  pub decode_accept_file : Bytes → Option AcceptFile
  pub decode_cancel_send : Bytes → Option CancelSend
  pub decode_cancel_recv : Bytes → Option CancelRecv
  pub decode_file_chunk : Bytes → Option FileChunk
  pub incoming_file_back :
      (m : IncomingFile) → decode_incoming_file (encode_incoming_file m) ≡ some m
  pub accept_file_back : (m : AcceptFile) → decode_accept_file (encode_accept_file m) ≡ some m
  pub cancel_send_back : (m : CancelSend) → decode_cancel_send (encode_cancel_send m) ≡ some m
  pub cancel_recv_back : (m : CancelRecv) → decode_cancel_recv (encode_cancel_recv m) ≡ some m
  pub file_chunk_back : (m : FileChunk) → decode_file_chunk (encode_file_chunk m) ≡ some m
  pub file_chunk_size_le :
      (m : FileChunk)
      → length m.content < 2 ^ 21
      → length (encode_file_chunk m) ≤ length m.content + 15

unfoldable pub from_incoming_file : IncomingFile → ToBehaviourEvent
from_incoming_file m = ToBehaviourEvent.incoming_file m.file_name m.remote_send_id m.bytes_total

unfoldable pub from_accept_file : AcceptFile → ToBehaviourEvent
from_accept_file m = ToBehaviourEvent.file_send_accepted m.local_send_id

unfoldable pub from_cancel_send : CancelSend → ToBehaviourEvent
from_cancel_send m = ToBehaviourEvent.remote_cancel_recv m.remote_send_id

unfoldable pub from_cancel_recv : CancelRecv → ToBehaviourEvent
from_cancel_recv m = ToBehaviourEvent.remote_cancel_send m.local_send_id

unfoldable pub from_file_chunk : FileChunk → ToBehaviourEvent
from_file_chunk m = ToBehaviourEvent.recv_progressed m.remote_send_id m.content
