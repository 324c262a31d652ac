-- ===== src/Framing.antt =====
-- Streams and what both protocols for messages on a stream share: numbers as bytes, and loops that
-- read and write. owlnest-blob/src/protocol.rs is Framing/Blob, and the universal protocol of
-- owlnest-prelude/src/lib.rs is Framing/Universal.
pub mod Numbers
pub mod Reading
pub mod Blob
pub mod Universal
pub mod Exchange
pub mod Writing
pub mod CutShort
pub mod Examples
use owl_nest.Base.{
  ℕ, ◌+◌, ◌-◌, ◌*◌, ◌/◌, ◌%◌, ◌^◌, ◌≡◌, String, Bool, true, false, Option, none, some, List, [],
  ◌∷◌, ◌++◌, length, take, drop, leb, if◌then◌else◌, ◌==◌, nat_key, ◌&&◌,
}
use owl_nest.Blob.Types.{Bytes}

-- What an asynchronous call comes to: `io::Result`, or a loop that never gets further.
pub data Io {ℓ} (A : Type ℓ) : Type ℓ where
  ok : A → Io A
  failed : String → Io A
  stuck : Io A

infixl 5 ◌>>=◌
abbrev pub ◌>>=◌ {ℓ κ} : {A : Type ℓ} {B : Type κ} → Io A → (A → Io B) → Io B
ok a >>= f = f a
failed e >>= f = failed e
stuck >>= f = stuck

-- A stream: the bytes that will come, as they come, and how they end: by the end of the stream, where
-- reads give no bytes, or by an error; and the bytes that were written, and the error of writing.
pub record Stream : Type 0 where
  pub incoming : List Bytes
  pub ending : Option String
  pub outgoing : Bytes
  pub broken : Option String

-- The bytes of several reads.
abbrev pub join : List Bytes → Bytes
join [] = []
join (c ∷ cs) = c ++ join cs

-- xxh3_128, as the sixteen bytes of its value.
pub record Hash : Type 0 where
  pub xxh3_128 : Bytes → Bytes
  pub length-xxh3_128 : (bytes : Bytes) → length (xxh3_128 bytes) ≡ 16

abbrev pub bytes_eq : Bytes → Bytes → Bool
bytes_eq [] [] = true
bytes_eq [] (y ∷ ys) = false
bytes_eq (x ∷ xs) [] = false
bytes_eq (x ∷ xs) (y ∷ ys) = x == y && bytes_eq xs ys

-- `to_be_bytes` of a u64 or a usize, and `from_be_bytes`.
unfoldable pub to_be_bytes : ℕ → Bytes
to_be_bytes n =
    (n / 2 ^ 56 % 256)
    ∷ (n / 2 ^ 48 % 256)
    ∷ (n / 2 ^ 40 % 256)
    ∷ (n / 2 ^ 32 % 256)
    ∷ (n / 2 ^ 24 % 256)
    ∷ (n / 2 ^ 16 % 256)
    ∷ (n / 2 ^ 8 % 256)
    ∷ (n % 256)
    ∷ []

abbrev pub from_be : ℕ → Bytes → ℕ
from_be acc [] = acc
from_be acc (b ∷ bs) = from_be (acc * 256 + b) bs

unfoldable pub from_be_bytes : Bytes → ℕ
from_be_bytes bytes = from_be 0 bytes

-- Assigning the first byte of an array.
unfoldable pub set_first : ℕ → Bytes → Bytes
set_first b [] = []
set_first b (x ∷ xs) = b ∷ xs

-- The loops that read until there are `len` bytes in the buffer. A read takes what has come, up to
-- the room in the buffer; `at_end` is what becomes of a loop that reads at the end of the stream.
unfoldable pub read_loop :
    Io (Bytes × List Bytes) → ℕ → Bytes → List Bytes → Io (Bytes × List Bytes)
read_loop at_end len buf [] = if leb len (length buf) then ok (buf, []) else at_end
read_loop at_end len buf (c ∷ cs) =
    let rest = read_loop at_end len (buf ++ c) cs in
    if leb len (length buf)
    then ok (buf, c ∷ cs)
    else if leb (length c) (len - length buf)
    then rest
    else ok (buf ++ take (len - length buf) c, drop (len - length buf) c ∷ cs)

-- The end of a stream: an error of the stream, or else `eof`.
abbrev pub ended {ℓ} : {A : Type ℓ} → Io A → Option String → Io A
ended eof none = eof
ended eof (some e) = failed e

-- `AsyncReadExt::read_exact`.
unfoldable pub read_exact : ℕ → Stream → Io (Bytes × Stream)
unfolding read_loop
read_exact n s = do
  (bytes, rest) ← read_loop (ended (failed "UnexpectedEof") s.ending) n [] s.incoming
  ok (bytes, record s { incoming = rest })

-- `AsyncWriteExt::write_all`, with the flush that follows.
unfoldable pub write_all : Bytes → Stream → Io Stream
write_all bytes s = elim s.broken [
  | none ↦ ok (record s { outgoing = s.outgoing ++ bytes })
  | some e ↦ failed e
]
