-- ===== src/Framing/Universal.antt =====
-- The universal protocol of owlnest-prelude/src/lib.rs, which messages of owlnest-messaging and
-- owlnest-advertise go through.
use owl_nest.Base.{
  ℕ, ◌+◌, ◌/◌, String, Option, none, some, List, [], ◌∷◌, ◌++◌, length, take, drop, leb, ltb,
  if◌then◌else◌, zero, suc,
}
use owl_nest.Blob.Types.{Bytes}
use owl_nest.Framing.{
  Io, ok, failed, stuck, ◌>>=◌, Stream, Hash, bytes_eq, to_be_bytes, from_be_bytes, read_exact,
  ended, write_all,
}

-- One `write` of what is left: the stream takes a part of it, at most `room` bytes.
unfoldable pub write : ℕ → Bytes → Stream → Io (ℕ × Stream)
write room bytes s = elim s.broken [
  | none ↦
      let taken = take room bytes in ok (length taken, record s { outgoing = s.outgoing ++ taken })
  | some e ↦ failed e
]

-- The loop of `send`, given how much the stream takes each time; the loop waits for ever when there is
-- no next time.
unfoldable pub write_loop : List ℕ → ℕ → Bytes → Stream → Io Stream
unfolding write
write_loop [] cursor msg_bytes s = stuck
write_loop (room ∷ rooms) cursor msg_bytes s = do
  (bytes_written, s') ← write room (drop cursor msg_bytes) s
  let rest = write_loop rooms (cursor + bytes_written) msg_bytes s' in
      if leb (length msg_bytes) (cursor + bytes_written) then ok s' else rest

-- The pieces of a piece as reads into an array of 2048 bytes take it.
unfoldable pub cut : ℕ → Bytes → Bytes → List Bytes
cut room taken [] = taken ∷ []
cut zero taken (b ∷ bs) = taken ∷ cut 2047 (b ∷ []) bs
cut (suc room) taken (b ∷ bs) = cut room (taken ++ (b ∷ [])) bs

unfoldable pub cut_all : List Bytes → List Bytes
unfolding cut
cut_all [] = []
cut_all (c ∷ cs) = cut 2048 [] c ++ cut_all cs

-- The loop of `recv`: it reads before it tests, and at the end of the stream a read gives no bytes.
unfoldable pub recv_loop : ℕ → Bytes → Option String → List Bytes → Io (Bytes × List Bytes)
recv_loop bytes_to_read msg_buf ending [] =
    ended (if leb bytes_to_read (length msg_buf) then ok (msg_buf, []) else stuck) ending
recv_loop bytes_to_read msg_buf ending (c ∷ cs) =
    let rest = recv_loop bytes_to_read (msg_buf ++ c) ending cs in
    if leb bytes_to_read (length (msg_buf ++ c)) then ok (msg_buf ++ c, cs) else rest

module _ (hash : Hash) where
  unfoldable pub send : List ℕ → Stream → Bytes → Io Stream
  unfolding read_exact write_all to_be_bytes write_loop
  send rooms stream msg_bytes = do
    stream ← write_all (to_be_bytes (length msg_bytes)) stream
    stream ← write_loop rooms 0 msg_bytes stream
    (verf_read, stream) ← read_exact 16 stream
    if bytes_eq verf_read (hash.xxh3_128 msg_bytes) then ok stream else failed "Verifier mismatch"

  -- `recv` from the buffer on.
  unfoldable pub recv_body : Stream → ℕ → Io (Bytes × Stream)
  unfolding write_all recv_loop cut_all
  recv_body stream bytes_to_read = do
    (msg_buf, rest) ← recv_loop bytes_to_read [] stream.ending (cut_all stream.incoming)
    stream ← write_all (hash.xxh3_128 msg_buf) (record stream { incoming = rest })
    ok (msg_buf, stream)

  unfoldable pub recv : Stream → Io (Bytes × Stream)
  unfolding read_exact from_be_bytes recv_body
  recv stream = do
    (buf, stream) ← read_exact 8 stream
    let bytes_to_read = from_be_bytes buf
    if ltb 128 (bytes_to_read / 1024)
        then failed "Stream too long. Terminating."
        else recv_body stream bytes_to_read
