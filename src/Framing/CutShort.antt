-- ===== src/Framing/CutShort.antt =====
-- A message of the file protocol of which only a part comes.
use owl_nest.Base.{
  ℕ, ◌+◌, ◌-◌, ◌≤◌, ◌<◌, ◌≡◌, refl, ap, true, false, Option, none, some, String, List, [], ◌∷◌,
  ◌++◌, length, ltb, leb, leb_iff, arith, length-append,
}
use owl_nest.Blob.Types.{Bytes}
use owl_nest.Framing.{
  Io, ok, failed, stuck, ◌>>=◌, Stream, Hash, join, read_loop, ended, read_exact,
}
use owl_nest.Framing.Reading.{read_exact-join}
use owl_nest.Framing.Blob.{max_message_size, header, cursor_read, recv}
use owl_nest.Framing.Exchange.{length-header, length_back}

-- The loop comes to the end of the stream.
read_loop-ended :
    (at_end : Io (Bytes × List Bytes)) (len : ℕ) (buf : Bytes) (cs : List Bytes)
    → length buf + length (join cs) < len
    → read_loop at_end len buf cs ≡ at_end
unfolding read_loop
read_loop-ended at_end len buf [] h =
    let more : leb len (length buf) ≡ false = ground arith in rw more refl
read_loop-ended at_end len buf (c ∷ cs) h =
    let size = length-append c (join cs) in
    let more : leb len (length buf) ≡ false = ground arith in
    let whole : leb (length c) (len - length buf) ≡ true =
      (leb_iff (length c) (len - length buf)).1 (omega arith) in
    rw (more, whole) (read_loop-ended at_end len (buf ++ c) cs (omega (arith, length-append buf c)))

-- What an end of the stream makes of a call.
abbrev pub gone : {A : Type 0} → Option String → Io A
gone none = stuck
gone (some e) = failed e

nothing : {A B : Type 0} (e : Option String) (next : A → Io B) → (gone e >>= next) ≡ gone e
nothing none next = refl
nothing (some e) next = refl

module _ (hash : Hash) where
  cursor_read-ended :
      (s : Stream) (len : ℕ)
      → length (join s.incoming) < len
      → cursor_read hash s len ≡ gone s.ending
  unfolding cursor_read
  cursor_read-ended s len h = by_end s.ending refl
    where
      by_end : (e : Option String) → s.ending ≡ e → cursor_read hash s len ≡ gone e
      by_end none f =
          rw
            (read_loop-ended (ended stuck s.ending) len [] s.incoming (omega arith), cursor_read, f)
            refl
      by_end (some e) f =
          rw
            (read_loop-ended (ended stuck s.ending) len [] s.incoming (omega arith), cursor_read, f)
            refl

  -- If the header of a message of at most 2 ^ 18 + 16 bytes comes through a stream, but the stream ends
  -- before the whole message came, then receiving never ends; and if the stream breaks instead,
  -- receiving gives its error.
  pub recv-cut_short :
      (buf part : Bytes) (message_type : ℕ) (s : Stream)
      → length buf ≤ max_message_size
      → length part < length buf
      → join s.incoming ≡ header buf message_type ++ part
      → recv hash s ≡ gone s.ending
  unfolding recv
  recv-cut_short buf part message_type s fits short e =
      let (cs, r, j) =
        read_exact-join 8 (header buf message_type) part s e (length-header buf message_type) in
      rest cs r
        (cursor_read-ended (record s { incoming = cs }) (length buf) (omega (arith, ap length j)))
    where
      rest :
          (cs : List Bytes)
          → read_exact 8 s ≡ ok (header buf message_type, record s { incoming = cs })
          → cursor_read hash (record s { incoming = cs }) (length buf) ≡ gone s.ending
          → recv hash s ≡ gone s.ending
      rest cs r c =
          rw (r, recv)
            (rw (length_back buf message_type fits, short_enough, c) (nothing s.ending _))
        where
          short_enough : ltb max_message_size (length buf) ≡ false
          short_enough = ground arith
