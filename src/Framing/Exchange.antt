-- ===== src/Framing/Exchange.antt =====
-- A message of the file protocol from one peer to the other, however the network cuts it.
use mathlib.Core.List.{append_assoc}
use owl_nest.Base.{
  ℕ, ◌≤◌, ◌≡◌, refl, ◌∙◌, true, false, none, some, List, [], ◌∷◌, ◌++◌, length, arith, ltb,
  if◌then◌else◌, nat_key,
}
use owl_nest.Blob.Types.{Bytes, FromBehaviourEvent}
use owl_nest.Blob.Send.{file_chunk_size}
use owl_nest.Blob.Wire.{Prost, FileChunk}
use owl_nest.Blob.Handler.{encode, decode}
use owl_nest.Blob.Handler.RoundTrip.{counterpart, decode-encode}
use owl_nest.Framing.{
  ok, failed, stuck, Stream, Hash, join, bytes_eq, to_be_bytes, from_be_bytes, set_first, read_loop,
  read_exact, ended,
}
use owl_nest.Framing.Numbers.{from_be_bytes-set_first}
use owl_nest.Framing.Reading.{read_loop-join, read_exact-join, write_all_ok}
use owl_nest.Framing.Blob.{max_message_size, header, first, send, cursor_read, recv}

pub length-header : (buf : Bytes) (message_type : ℕ) → length (header buf message_type) ≡ 8
unfolding header to_be_bytes set_first
length-header buf message_type = refl

pub first-header : (buf : Bytes) (message_type : ℕ) → first (header buf message_type) ≡ message_type
unfolding header to_be_bytes set_first
first-header buf message_type = refl

pub length_back :
    (buf : Bytes) (message_type : ℕ)
    → length buf ≤ max_message_size
    → from_be_bytes (set_first 0 (header buf message_type)) ≡ length buf
unfolding header
length_back buf message_type h = from_be_bytes-set_first (length buf) message_type (omega arith)

bytes_eq_refl : (xs : Bytes) → bytes_eq xs xs ≡ true
bytes_eq_refl [] = refl
bytes_eq_refl (x ∷ xs) = rw ((nat_key.same_iff x x).1 refl, bytes_eq_refl xs)

-- The bytes of a message on a stream.
abbrev pub frame : Bytes → ℕ → Bytes
frame buf message_type = header buf message_type ++ buf

module _ (hash : Hash) where
  cursor_after :
      (buf : Bytes) (s : Stream) (cs : List Bytes)
      → s.broken ≡ none
      → read_loop (ended stuck s.ending) (length buf) [] s.incoming ≡ ok (buf, cs)
      → cursor_read hash s (length buf)
        ≡ ok (buf, record s { incoming = cs; outgoing = s.outgoing ++ hash.xxh3_128 buf })
  unfolding cursor_read
  cursor_after buf s cs works r =
      rw (r, cursor_read)
        (rw (write_all_ok (hash.xxh3_128 buf) (record s { incoming = cs }) works) refl)

  cursor_read-join :
      (buf rest : Bytes) (s : Stream)
      → s.broken ≡ none
      → join s.incoming ≡ buf ++ rest
      → (cs : List Bytes) × (cursor_read hash s (length buf)
          ≡ ok (buf, record s { incoming = cs; outgoing = s.outgoing ++ hash.xxh3_128 buf }))
        × (join cs ≡ rest)
  cursor_read-join buf rest s works e =
      let (cs, r, j) =
        read_loop-join (ended stuck s.ending) (length buf) [] buf rest s.incoming e (omega arith) in
      (cs, cursor_after buf s cs works r, j)

  short : (buf : Bytes) → length buf ≤ max_message_size → ltb max_message_size (length buf) ≡ false
  short buf fits = ground arith

  after_header :
      (buf : Bytes) (message_type : ℕ) (s : Stream) (cs cs' : List Bytes)
      → length buf ≤ max_message_size
      → read_exact 8 s ≡ ok (header buf message_type, record s { incoming = cs })
      → cursor_read hash (record s { incoming = cs }) (length buf)
        ≡ ok (buf, record s { incoming = cs'; outgoing = s.outgoing ++ hash.xxh3_128 buf })
      → recv hash s
        ≡ ok (
          buf,
          message_type,
          record s { incoming = cs'; outgoing = s.outgoing ++ hash.xxh3_128 buf },
        )
  unfolding recv
  after_header buf message_type s cs cs' fits r r' =
      rw (r, recv)
        (rw (length_back buf message_type fits, first-header buf message_type, short buf fits)
          (rw (r', recv)))

  -- A message of at most 2 ^ 18 + 16 bytes that comes through a stream that takes what is written to it,
  -- in whatever pieces and with whatever behind the message, is received whole and with its type; what is behind it stays, and the hash of
  -- the message is written back.
  pub recv-frame :
      (buf rest : Bytes) (message_type : ℕ) (s : Stream)
      → length buf ≤ max_message_size
      → s.broken ≡ none
      → join s.incoming ≡ frame buf message_type ++ rest
      → (cs : List Bytes) × (recv hash s
          ≡ ok (
            buf,
            message_type,
            record s { incoming = cs; outgoing = s.outgoing ++ hash.xxh3_128 buf },
          ))
        × (join cs ≡ rest)
  recv-frame buf rest message_type s fits works e =
      let (cs, r, j) =
        read_exact-join 8 (header buf message_type) (buf ++ rest) s
          (e ∙ append_assoc (header buf message_type) buf rest) (length-header buf message_type) in
      let (cs', r', j') = cursor_read-join buf rest (record s { incoming = cs }) works j in
      (cs', after_header buf message_type s cs cs' fits r r', j')

  -- A send is well exactly if the sixteen bytes that come back are the hash of the message.
  send-reply :
      (buf verf rest : Bytes) (message_type : ℕ) (s : Stream)
      → s.broken ≡ none
      → join s.incoming ≡ verf ++ rest
      → length verf ≡ 16
      → (cs : List Bytes) × (send hash s buf message_type ≡ (
          if bytes_eq verf (hash.xxh3_128 buf)
          then ok (record s {
            incoming = cs;
            outgoing = (s.outgoing ++ header buf message_type) ++ buf;
          })
          else failed "Verifier mismatch!"))
        × (join cs ≡ rest)
  unfolding send
  send-reply buf verf rest message_type s works e n =
      let written = record s { outgoing = (s.outgoing ++ header buf message_type) ++ buf } in
      let (cs, r, j) = read_exact-join 16 verf rest written e n in
      (cs, send_after buf verf message_type s cs works r, j)
    where
      send_after :
          (buf verf : Bytes) (message_type : ℕ) (s : Stream) (cs : List Bytes)
          → s.broken ≡ none
          → read_exact 16 (record s { outgoing = (s.outgoing ++ header buf message_type) ++ buf })
            ≡ ok (
              verf,
              record s { incoming = cs; outgoing = (s.outgoing ++ header buf message_type) ++ buf },
            )
          → send hash s buf message_type ≡ (
              if bytes_eq verf (hash.xxh3_128 buf)
              then ok (record s {
                incoming = cs;
                outgoing = (s.outgoing ++ header buf message_type) ++ buf;
              })
              else failed "Verifier mismatch!")
      send_after buf verf message_type s cs works r =
          rw (write_all_ok (header buf message_type) s works, send)
            (rw
              (write_all_ok buf (record s { outgoing = s.outgoing ++ header buf message_type })
                works)
              (rw r refl))

  -- If the streams at both ends take what is written to them, a chunk of a file of at most 2 ^ 18 bytes
  -- is sent as one message that the receiving peer accepts, in whatever pieces it comes and whatever
  -- follows: it is received whole and read as the chunk that
  -- was sent, and when the answer comes back the send ends well.
  pub chunk_delivered :
      (prost : Prost) (id : ℕ) (content more more' : Bytes) (a b : Stream)
      → length content ≤ file_chunk_size
      → a.broken ≡ none
      → b.broken ≡ none
      → (let (bytes, message_type, kind) =
            encode prost (FromBehaviourEvent.file_chunk id content) in
          join b.incoming ≡ frame bytes message_type ++ more)
      → (let (bytes, message_type, kind) =
            encode prost (FromBehaviourEvent.file_chunk id content) in
          join a.incoming ≡ hash.xxh3_128 bytes ++ more')
      → (let (bytes, message_type, kind) =
            encode prost (FromBehaviourEvent.file_chunk id content) in
          ((cs : List Bytes) × (recv hash b
              ≡ ok (
                bytes,
                message_type,
                record b { incoming = cs; outgoing = b.outgoing ++ hash.xxh3_128 bytes },
              ))
            × (join cs ≡ more))
          × (decode prost bytes message_type
              ≡ some (counterpart (FromBehaviourEvent.file_chunk id content)))
          × ((cs : List Bytes) × (send hash a bytes message_type
                ≡ ok (record a {
                  incoming = cs;
                  outgoing = (a.outgoing ++ header bytes message_type) ++ bytes;
                }))
              × (join cs ≡ more')))
  unfolding encode
  chunk_delivered prost id content more more' a b small works works' arrives answered =
      let message : FileChunk = record { remote_send_id = id; content = content } in
      let bytes = prost.encode_file_chunk message in
      let fits : length bytes ≤ max_message_size =
        omega (arith, prost.file_chunk_size_le message (omega arith)) in
      let (cs, r, j) =
        send-reply bytes (hash.xxh3_128 bytes) more' 4 a works answered
          (hash.length-xxh3_128 bytes) in
      (
        recv-frame bytes more 4 b fits works' arrives,
        decode-encode prost (FromBehaviourEvent.file_chunk id content),
        (cs, r ∙ rw (bytes_eq_refl (hash.xxh3_128 bytes)), j),
      )
