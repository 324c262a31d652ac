-- ===== src/Framing/Writing.antt =====
-- The loops of the universal protocol: what `send` writes, and what `recv` reads.
use mathlib.Core.List.{append_assoc, append-nil}
use owl_nest.Base.{
  ℕ, suc, zero, ◌+◌, ◌≤◌, ◌<◌, ◌≡◌, refl, sym, ap, ◌∙◌, false, none, some, Option, String, List, [],
  ◌∷◌, ◌++◌, length, take, drop, ltb, ◌/◌, leb, leb_iff, if◌then◌else◌, arith, length-append,
  length-take, length-drop, Bool-cases, inl, inr,
}
use owl_nest.Blob.Types.{Bytes}
use owl_nest.Framing.{read_exact, Io, ok, failed, Stream, Hash, join, write_all, to_be_bytes}
use owl_nest.Framing.Numbers.{from_be_bytes-to_be_bytes, length-to_be_bytes}
use owl_nest.Framing.Reading.{read_exact-join, write_all_ok}
use owl_nest.Framing.Universal.{write, write_loop, cut, cut_all, recv_loop, recv_body, recv}

-- A stream takes something every time.
abbrev pub AllTake : List ℕ → Type 0
AllTake [] = Unit
AllTake (room ∷ rooms) = (1 ≤ room) × AllTake rooms

write_ok :
    (room : ℕ) (bytes : Bytes) (s : Stream)
    → s.broken ≡ none
    → write room bytes s
      ≡ ok (length (take room bytes), record s { outgoing = s.outgoing ++ take room bytes })
unfolding write
write_ok room bytes s works =
    ap
      (λ o. elim o as (λ _. Io (ℕ × Stream)) [
        | none ↦
            ok (length (take room bytes), record s { outgoing = s.outgoing ++ take room bytes })
        | some e ↦ failed e
      ])
      works

take_whole : (n : ℕ) (xs : Bytes) → length xs ≤ length (take n xs) → take n xs ≡ xs
take_whole zero [] h = refl
take_whole zero (x ∷ xs) h = absurd (omega arith)
take_whole (suc n) [] h = refl
take_whole (suc n) (x ∷ xs) h = ap (◌∷◌ x) (take_whole n xs (omega arith))

take-drop-length : (n : ℕ) (xs : Bytes) → take n xs ++ drop (length (take n xs)) xs ≡ xs
take-drop-length zero xs = refl
take-drop-length (suc n) [] = refl
take-drop-length (suc n) (x ∷ xs) = ap (◌∷◌ x) (take-drop-length n xs)

drop_add : (m n k : ℕ) (xs : Bytes) → k ≡ m + n → drop k xs ≡ drop n (drop m xs)
drop_add zero n k xs h = let same : k ≡ n = omega arith in ap (λ k. drop k xs) same
drop_add (suc m) zero zero xs h = absurd (omega arith)
drop_add (suc m) zero (suc k) [] h = refl
drop_add (suc m) (suc n) zero [] h = absurd (omega arith)
drop_add (suc m) (suc n) (suc k) [] h = refl
drop_add (suc m) n zero (x ∷ xs) h = absurd (omega arith)
drop_add (suc m) n (suc k) (x ∷ xs) h = drop_add m n k xs (omega arith)

-- What is written by one turn of the loop and the turns after it.
then_rest :
    (room cursor : ℕ) (msg : Bytes) (s : Stream)
    → (s.outgoing ++ take room (drop cursor msg))
        ++ drop (cursor + length (take room (drop cursor msg))) msg
      ≡ s.outgoing ++ drop cursor msg
then_rest room cursor msg s =
    append_assoc s.outgoing _ _
    ∙ ap (◌++◌ s.outgoing) (
        ap (◌++◌ (take room (drop cursor msg))) (drop_add cursor _ _ msg refl)
        ∙ take-drop-length room (drop cursor msg))

write_loop-step :
    (room : ℕ) (rooms : List ℕ) (cursor : ℕ) (msg : Bytes) (s : Stream)
    → s.broken ≡ none
    → write_loop (room ∷ rooms) cursor msg s ≡ (
        let n = length (take room (drop cursor msg)) in
        let s' = record s { outgoing = s.outgoing ++ take room (drop cursor msg) } in
        if leb (length msg) (cursor + n) then ok s' else write_loop rooms (cursor + n) msg s')
unfolding write_loop
write_loop-step room rooms cursor msg s works =
    rw (write_ok room (drop cursor msg) s works, write_loop) refl

write_loop-rest :
    (rooms : List ℕ) (cursor : ℕ) (msg : Bytes) (s : Stream)
    → s.broken ≡ none
    → AllTake rooms
    → 1 ≤ length rooms
    → length msg ≤ cursor + length rooms
    → cursor ≤ length msg
    → write_loop rooms cursor msg s ≡ ok (record s { outgoing = s.outgoing ++ drop cursor msg })
unfolding write_loop write
write_loop-rest [] cursor msg s w t n h c = absurd (omega arith)
write_loop-rest (room ∷ rooms) cursor msg s w t n h c =
    let k = length (take room (drop cursor msg)) in
    let size = length-take room (drop cursor msg) in
    let left = length-drop cursor msg in
    write_loop-step room rooms cursor msg s w ∙ elim (Bool-cases (leb (length msg) (cursor + k))) [
      | inl e ↦ rw e (
          ap (λ bytes. ok (record s { outgoing = s.outgoing ++ bytes }))
            (take_whole room (drop cursor msg) (omega (arith, (leb_iff _ _).0 e))))
      | inr e ↦ rw e (
          write_loop-rest rooms (cursor + k) msg
            (record s { outgoing = s.outgoing ++ take room (drop cursor msg) }) w t.1 (ground arith)
            (ground arith) (ground arith)
          ∙ ap (λ bytes. ok (record s { outgoing = bytes })) (then_rest room cursor msg s))
    ]

join-cut : (room : ℕ) (taken bs : Bytes) → join (cut room taken bs) ≡ taken ++ bs
unfolding cut
join-cut zero taken [] = refl
join-cut (suc room) taken [] = refl
join-cut zero taken (b ∷ bs) = ap (◌++◌ taken) (join-cut 2047 (b ∷ []) bs)
join-cut (suc room) taken (b ∷ bs) =
    join-cut room (taken ++ (b ∷ [])) bs ∙ append_assoc taken (b ∷ []) bs

join-append : (xs ys : List Bytes) → join (xs ++ ys) ≡ join xs ++ join ys
join-append [] ys = refl
join-append (x ∷ xs) ys = rw (join-append xs ys, append_assoc)

join-cut_all : (cs : List Bytes) → join (cut_all cs) ≡ join cs
unfolding cut_all
join-cut_all [] = refl
join-cut_all (c ∷ cs) =
    join-append (cut 2048 [] c) (cut_all cs) ∙ λ i. join-cut 2048 [] c i ++ join-cut_all cs i

no_bytes : (bytes : Bytes) → length bytes ≡ 0 → bytes ≡ []
no_bytes [] h = refl
no_bytes (b ∷ bs) h = absurd (omega arith)

recv_loop-all :
    (n : ℕ) (buf msg : Bytes) (e : Option String) (cs : List Bytes)
    → join cs ≡ msg
    → length buf < n
    → length buf + length msg ≡ n
    → (rest : List Bytes) × (recv_loop n buf e cs ≡ ok (buf ++ msg, rest)) × (join rest ≡ [])
unfolding recv_loop
recv_loop-all n buf msg e [] j l h = absurd (omega (arith, ap length j))
recv_loop-all n buf msg e (c ∷ cs) j l h =
    let size : length c + length (join cs) ≡ length msg =
      sym (length-append c (join cs)) ∙ ap length j in
    elim (Bool-cases (leb n (length (buf ++ c)))) [
      | inl f ↦
          let none_left : join cs ≡ [] =
            no_bytes (join cs) (omega (arith, size, length-append buf c, (leb_iff _ _).0 f)) in
          (
            cs,
            rw f (
                ap (λ bytes. ok (buf ++ bytes, cs))
                  (sym (append-nil c) ∙ ap (◌++◌ c) (sym none_left) ∙ j)),
            none_left,
          )
      | inr f ↦
          let (rest, r, k) =
            recv_loop-all n (buf ++ c) (join cs) e cs refl (ground arith)
              (omega (arith, size, length-append buf c)) in
          (
            rest,
            rw f (
                r
                ∙ ap (λ bytes. ok (bytes, rest)) (append_assoc buf c (join cs) ∙ ap (◌++◌ buf) j)),
            k,
          )
    ]

-- If the stream works and takes at least one byte of what is offered at each of the turns, of which
-- there are as many as the message has bytes and at least one, then the loop of `send` ends and does
-- what `write_all` does.
pub write_loop-write_all :
    (rooms : List ℕ) (msg : Bytes) (s : Stream)
    → s.broken ≡ none
    → AllTake rooms
    → 1 ≤ length rooms
    → length msg ≤ length rooms
    → write_loop rooms 0 msg s ≡ write_all msg s
write_loop-write_all rooms msg s works takes one enough =
    write_loop-rest rooms 0 msg s works takes one (omega arith) (omega arith)
    ∙ sym (write_all_ok msg s works)

module _ (hash : Hash) where
  after_loop :
      (msg : Bytes) (s : Stream) (cs : List Bytes)
      → s.broken ≡ none
      → recv_loop (length msg) [] s.ending (cut_all s.incoming) ≡ ok (msg, cs)
      → recv_body hash s (length msg)
        ≡ ok (msg, record s { incoming = cs; outgoing = s.outgoing ++ hash.xxh3_128 msg })
  unfolding recv_body
  after_loop msg s cs works r =
      rw (r, recv_body)
        (rw (write_all_ok (hash.xxh3_128 msg) (record s { incoming = cs }) works) refl)

  after_length :
      (msg : Bytes) (s : Stream) (cs cs' : List Bytes)
      → length msg < 132096
      → read_exact 8 s ≡ ok (to_be_bytes (length msg), record s { incoming = cs })
      → recv_body hash (record s { incoming = cs }) (length msg)
        ≡ ok (msg, record s { incoming = cs'; outgoing = s.outgoing ++ hash.xxh3_128 msg })
      → recv hash s
        ≡ ok (msg, record s { incoming = cs'; outgoing = s.outgoing ++ hash.xxh3_128 msg })
  unfolding recv
  after_length msg s cs cs' small r r' =
      rw (r, recv) (rw (from_be_bytes-to_be_bytes (length msg) (omega arith), fits) r')
    where
      fits : ltb 128 (length msg / 1024) ≡ false
      fits = ground arith

  -- A message of at least one byte and less than 129 * 1024 bytes that comes after its length through a
  -- stream that takes what is written to it, in whatever pieces and with nothing behind it, is received whole, nothing is left on the
  -- stream, and the hash of the message is written back.
  pub recv-message :
      (msg : Bytes) (s : Stream)
      → 0 < length msg
      → length msg < 132096
      → s.broken ≡ none
      → join s.incoming ≡ to_be_bytes (length msg) ++ msg
      → (cs : List Bytes) × (recv hash s
          ≡ ok (msg, record s { incoming = cs; outgoing = s.outgoing ++ hash.xxh3_128 msg }))
        × (join cs ≡ [])
  recv-message msg s some_byte small works e =
      let (cs, r, j) =
        read_exact-join 8 (to_be_bytes (length msg)) msg s e (length-to_be_bytes (length msg)) in
      let (cs', r', j') =
        recv_loop-all (length msg) [] msg s.ending (cut_all cs) (join-cut_all cs ∙ j) some_byte
          (omega arith) in
      (
        cs',
        after_length msg s cs cs' small r
            (after_loop msg (record s { incoming = cs }) cs' works r'),
        j',
      )
