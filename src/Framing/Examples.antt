-- ===== src/Framing/Examples.antt =====
-- Messages on concrete streams, and the theorems there.
use owl_nest.Base.{ℕ, ◌≡◌, refl, none, some, List, [], ◌∷◌, ◌++◌, arith}
use owl_nest.Blob.Types.{Bytes, FromBehaviourEvent}
use owl_nest.Blob.Handler.{encode, decode}
use owl_nest.Blob.Handler.RoundTrip.{counterpart}
use owl_nest.Blob.Handler.Examples.{prost}
use owl_nest.Framing.{
  ok, stuck, Stream, Hash, join, to_be_bytes, set_first, read_loop, read_exact, write_all,
  from_be_bytes,
}
use owl_nest.Framing.Blob.{header, send, recv, cursor_read}
use owl_nest.Framing.Exchange.{recv-frame, chunk_delivered}
use owl_nest.Framing.CutShort.{recv-cut_short}
use owl_nest.Framing.Universal.{write_loop, write}
use owl_nest.Framing.Universal
use owl_nest.Framing.Writing.{write_loop-write_all, recv-message}

-- A hash that looks at the first byte only.
abbrev hash_byte : Bytes → ℕ
hash_byte [] = 0
hash_byte (b ∷ bs) = b

abbrev hash : Hash
hash = record {
  xxh3_128 =
      λ bytes. hash_byte bytes ∷ 0 ∷ 0 ∷ 0 ∷ 0 ∷ 0 ∷ 0 ∷ 0 ∷ 0 ∷ 0 ∷ 0 ∷ 0 ∷ 0 ∷ 0 ∷ 0 ∷ 0 ∷ [];
  length-xxh3_128 = λ bytes. refl;
}

abbrev stream : List Bytes → Stream
stream pieces = record { incoming = pieces; ending = none; outgoing = []; broken = none }

-- The message 7 8 9 of type 4 in three pieces, with two more bytes behind it.
abbrev pieces : List Bytes
pieces = (4 ∷ 0 ∷ 0 ∷ []) ∷ (0 ∷ 0 ∷ 0 ∷ 0 ∷ 3 ∷ 7 ∷ []) ∷ (8 ∷ 9 ∷ 1 ∷ 2 ∷ []) ∷ []

received_test :
    recv hash (stream pieces)
    ≡ ok (
      7 ∷ 8 ∷ 9 ∷ [],
      4,
      record (stream ((1 ∷ 2 ∷ []) ∷ [])) { outgoing = hash.xxh3_128 (7 ∷ []) },
    )
unfolding recv read_exact read_loop cursor_read write_all from_be_bytes set_first
received_test = refl

recv-frame_example :
    (cs : List Bytes) × (recv hash (stream pieces)
      ≡ ok (
        7 ∷ 8 ∷ 9 ∷ [],
        4,
        record (stream cs) { outgoing = [] ++ hash.xxh3_128 (7 ∷ 8 ∷ 9 ∷ []) },
      ))
    × (join cs ≡ 1 ∷ 2 ∷ [])
unfolding header to_be_bytes set_first
recv-frame_example =
    recv-frame hash (7 ∷ 8 ∷ 9 ∷ []) (1 ∷ 2 ∷ []) 4 (stream pieces) (omega arith) refl refl

abbrev chunk : FromBehaviourEvent
chunk = FromBehaviourEvent.file_chunk 3 (1 ∷ 2 ∷ [])

abbrev chunk_bytes : Bytes
chunk_bytes = 3 ∷ 1 ∷ 2 ∷ []

abbrev chunk_frame : Bytes
chunk_frame = 4 ∷ 0 ∷ 0 ∷ 0 ∷ 0 ∷ 0 ∷ 0 ∷ 3 ∷ 3 ∷ 1 ∷ 2 ∷ []

chunk_delivered_example :
    ((cs : List Bytes) × (recv hash (stream (chunk_frame ∷ []))
        ≡ ok (chunk_bytes, 4, record (stream cs) { outgoing = [] ++ hash.xxh3_128 chunk_bytes }))
      × (join cs ≡ []))
    × (decode prost chunk_bytes 4 ≡ some (counterpart chunk))
    × ((cs : List Bytes) × (send hash (stream (hash.xxh3_128 chunk_bytes ∷ [])) chunk_bytes 4
          ≡ ok (record (stream cs) { outgoing = ([] ++ header chunk_bytes 4) ++ chunk_bytes }))
        × (join cs ≡ []))
unfolding encode header to_be_bytes set_first
chunk_delivered_example =
    chunk_delivered hash prost 3 (1 ∷ 2 ∷ []) [] [] (stream (hash.xxh3_128 chunk_bytes ∷ []))
      (stream (chunk_frame ∷ [])) (omega arith) refl refl refl refl

recv-cut_short_example : recv hash (stream ((4 ∷ 0 ∷ 0 ∷ 0 ∷ 0 ∷ 0 ∷ 0 ∷ 3 ∷ 7 ∷ []) ∷ [])) ≡ stuck
unfolding header to_be_bytes set_first
recv-cut_short_example =
    recv-cut_short hash (7 ∷ 8 ∷ 9 ∷ []) (7 ∷ []) 4
      (stream ((4 ∷ 0 ∷ 0 ∷ 0 ∷ 0 ∷ 0 ∷ 0 ∷ 3 ∷ 7 ∷ []) ∷ [])) (omega arith) (omega arith) refl

write_loop_test :
    write_loop (1 ∷ 5 ∷ 1 ∷ []) 0 (7 ∷ 8 ∷ 9 ∷ []) (stream [])
    ≡ ok (record (stream []) { outgoing = 7 ∷ 8 ∷ 9 ∷ [] })
unfolding write_loop write
write_loop_test = refl

write_loop-write_all_example :
    write_loop (1 ∷ 5 ∷ 1 ∷ []) 0 (7 ∷ 8 ∷ 9 ∷ []) (stream [])
    ≡ write_all (7 ∷ 8 ∷ 9 ∷ []) (stream [])
write_loop-write_all_example =
    write_loop-write_all (1 ∷ 5 ∷ 1 ∷ []) (7 ∷ 8 ∷ 9 ∷ []) (stream []) refl
      (omega arith, (omega arith, (omega arith, tt))) (omega arith) (omega arith)

recv-message_example :
    (cs : List Bytes) × (Universal.recv hash
        (stream ((0 ∷ 0 ∷ 0 ∷ 0 ∷ 0 ∷ 0 ∷ 0 ∷ 2 ∷ 7 ∷ []) ∷ (8 ∷ []) ∷ []))
      ≡ ok (7 ∷ 8 ∷ [], record (stream cs) { outgoing = [] ++ hash.xxh3_128 (7 ∷ 8 ∷ []) }))
    × (join cs ≡ [])
unfolding to_be_bytes
recv-message_example =
    recv-message hash (7 ∷ 8 ∷ [])
      (stream ((0 ∷ 0 ∷ 0 ∷ 0 ∷ 0 ∷ 0 ∷ 0 ∷ 2 ∷ 7 ∷ []) ∷ (8 ∷ []) ∷ [])) (omega arith)
      (omega arith) refl refl
