-- ===== src/Framing/Blob.antt =====
-- owlnest-blob/src/protocol.rs: the messages of the file protocol on a stream. The time that a send
-- takes is left out.
use owl_nest.Base.{ℕ, ◌+◌, ◌^◌, [], ◌∷◌, length, ltb, if◌then◌else◌}
use owl_nest.Blob.Types.{Bytes}
use owl_nest.Framing.{
  Io, ok, failed, stuck, ◌>>=◌, Stream, Hash, bytes_eq, to_be_bytes, from_be_bytes, set_first,
  read_loop, read_exact, ended, write_all,
}

abbrev pub max_message_size : ℕ
max_message_size = 2 ^ 18 + 16

-- The message type stands in the first byte of the length.
unfoldable pub header : Bytes → ℕ → Bytes
unfolding to_be_bytes set_first
header buf message_type = set_first message_type (to_be_bytes (length buf))

abbrev pub first : Bytes → ℕ
first [] = 0
first (b ∷ bs) = b

module _ (hash : Hash) where
  unfoldable pub send : Stream → Bytes → ℕ → Io Stream
  unfolding header read_exact write_all
  send stream buf message_type = do
    stream ← write_all (header buf message_type) stream
    stream ← write_all buf stream
    (verf_read, stream) ← read_exact 16 stream
    if bytes_eq verf_read (hash.xxh3_128 buf) then ok stream else failed "Verifier mismatch!"

  -- At the end of the stream the loop reads no bytes for ever.
  unfoldable pub cursor_read : Stream → ℕ → Io (Bytes × Stream)
  unfolding read_loop write_all
  cursor_read s len = do
    (buf, rest) ← read_loop (ended stuck s.ending) len [] s.incoming
    s ← write_all (hash.xxh3_128 buf) (record s { incoming = rest })
    ok (buf, s)

  unfoldable pub recv : Stream → Io (Bytes × ℕ × Stream)
  unfolding cursor_read read_exact from_be_bytes set_first
  recv stream = do
    (header, stream) ← read_exact 8 stream
    let bytes_to_read = from_be_bytes (set_first 0 header)
    if ltb max_message_size bytes_to_read
        then failed "Stream too long. Terminating."
        else (cursor_read stream bytes_to_read >>= λ r. ok (r.0, first header, r.1))
