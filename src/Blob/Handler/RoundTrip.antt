-- ===== src/Blob/Handler/RoundTrip.antt =====
-- What one handler of protocols/owlnest-blob sends, the other one understands.
use owl_nest.Base.{◌≡◌, some, none}
use owl_nest.Blob.Types.{FromBehaviourEvent, ToBehaviourEvent, done}
use owl_nest.Blob.Wire.{Prost}
use owl_nest.Blob.Handler.{
  Handler, Stream, received, decode, encode, on_message, poll_inbound, report,
}

-- What the peer's behaviour is told of a request of this side's behaviour.
abbrev pub counterpart : FromBehaviourEvent → ToBehaviourEvent
counterpart (FromBehaviourEvent.new_file_send file_name id callback total) =
    ToBehaviourEvent.incoming_file file_name id total
counterpart (FromBehaviourEvent.file_chunk id content) = ToBehaviourEvent.recv_progressed id content
counterpart (FromBehaviourEvent.accept_file id callback) = ToBehaviourEvent.file_send_accepted id
counterpart (FromBehaviourEvent.local_cancel_send id) = ToBehaviourEvent.remote_cancel_recv id
counterpart (FromBehaviourEvent.local_cancel_recv id) = ToBehaviourEvent.remote_cancel_send id

module _ (prost : Prost) where
  pub decode-encode :
      (ev : FromBehaviourEvent)
      → decode prost (encode prost ev).0 (encode prost ev).1 ≡ some (counterpart ev)
  unfolding decode encode
  decode-encode (FromBehaviourEvent.new_file_send file_name id callback total) =
      rw prost.incoming_file_back
  decode-encode (FromBehaviourEvent.file_chunk id content) = rw prost.file_chunk_back
  decode-encode (FromBehaviourEvent.accept_file id callback) = rw prost.accept_file_back
  decode-encode (FromBehaviourEvent.local_cancel_send id) = rw prost.cancel_send_back
  decode-encode (FromBehaviourEvent.local_cancel_recv id) = rw prost.cancel_recv_back

  -- A message that a handler makes of any request of its behaviour is read by the handler of the
  -- other side, which goes on to receive from the stream and queues the counterpart of the request
  -- for its own behaviour.
  pub poll_inbound-encode :
      (ev : FromBehaviourEvent) (reading stream : Stream) (h : Handler)
      → h.inbound ≡ some reading
      → poll_inbound prost (received stream (encode prost ev).0 (encode prost ev).1) h
        ≡ done (none, report (record h { inbound = some stream }) (counterpart ev))
  unfolding poll_inbound on_message
  poll_inbound-encode ev reading stream h e =
      rw (e, poll_inbound) (rw (decode-encode ev, on_message))
