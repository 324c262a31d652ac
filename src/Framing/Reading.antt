-- ===== src/Framing/Reading.antt =====
-- The loop that reads gives the bytes that come first, however they are cut into pieces.
use mathlib.Core.List.{append_assoc, append-nil}
use owl_nest.Base.{
  ℕ, ◌+◌, ◌-◌, ◌≤◌, ◌≡◌, refl, sym, ◌∙◌, ap, false, none, some, List, [], ◌∷◌, ◌++◌, length, take,
  drop, leb, arith, length-append, inl, inr, Bool-cases, leb_iff,
}
use owl_nest.Blob.Types.{Bytes}
use owl_nest.Framing.{Io, ok, failed, Stream, join, read_loop, read_exact, ended, write_all}

-- A text cut in two ways: one front is a part of the other.
overlap :
    (xs ys us vs : Bytes)
    → xs ++ ys ≡ us ++ vs
    → length xs ≤ length us
    → (ws : Bytes) × (us ≡ xs ++ ws) × (ys ≡ ws ++ vs)
overlap [] ys us vs e h = (us, refl, e)
overlap (x ∷ xs) ys [] vs e h = absurd (omega arith)
overlap (x ∷ xs) ys (u ∷ us) vs e h =
    let (ws, f, g) = overlap xs ys us vs (cc) (omega arith) in (ws, cc (e, f), g)

take-append : (xs ys : Bytes) → take (length xs) (xs ++ ys) ≡ xs
take-append [] ys = refl
take-append (x ∷ xs) ys = rw (take-append xs ys)

drop-append : (xs ys : Bytes) → drop (length xs) (xs ++ ys) ≡ ys
drop-append [] ys = refl
drop-append (x ∷ xs) ys = drop-append xs ys

cut :
    (n : ℕ) (front back xs : Bytes)
    → n ≡ length front
    → xs ≡ front ++ back
    → (take n xs ≡ front) × (drop n xs ≡ back)
cut n front back xs e f = rw (e, f) (take-append front back, drop-append front back)

regrouped :
    (r : Io (Bytes × List Bytes)) (buf c ws want : Bytes) (cs : List Bytes)
    → want ≡ c ++ ws
    → r ≡ ok ((buf ++ c) ++ ws, cs)
    → r ≡ ok (buf ++ want, cs)
regrouped r buf c ws want cs f e = rw f (e ∙ rw append_assoc)

pub read_loop-join :
    (at_end : Io (Bytes × List Bytes)) (len : ℕ) (buf want rest : Bytes) (cs : List Bytes)
    → join cs ≡ want ++ rest
    → length buf + length want ≡ len
    → (cs' : List Bytes) × (read_loop at_end len buf cs ≡ ok (buf ++ want, cs')) × (join cs' ≡ rest)
unfolding read_loop
read_loop-join at_end len buf [] rest [] e h =
    ([], rw ((leb_iff len (length buf)).1 (omega arith)) (rw append-nil), e)
read_loop-join at_end len buf (w ∷ want) rest [] e h = cc
read_loop-join at_end len buf [] rest (c ∷ cs) e h =
    (c ∷ cs, rw ((leb_iff len (length buf)).1 (omega arith)) (rw append-nil), e)
read_loop-join at_end len buf (w ∷ want) rest (c ∷ cs) e h =
    let room : leb len (length buf) ≡ false = ground arith in
    elim (Bool-cases (leb (length c) (len - length buf))) [
      | inl whole ↦
          let (ws, f, g) = overlap c (join cs) (w ∷ want) rest e (ground arith) in
          let (cs', r, j) =
            read_loop-join at_end len (buf ++ c) ws rest cs g
              (omega (arith, length-append buf c, length-append c ws, ap length f)) in
          (cs', rw (room, whole) (regrouped _ buf c ws (w ∷ want) cs' f r), j)
      | inr more ↦
          let (ws, f, g) = overlap (w ∷ want) rest c (join cs) (sym e) (ground arith) in
          let n : len - length buf ≡ length (w ∷ want) = omega arith in
          let (t, d) = cut (len - length buf) (w ∷ want) ws c n f in
          (ws ∷ cs, rw (room, more) (λ i. ok (buf ++ t i, d i ∷ cs)), sym g)
    ]

pub read_exact-join :
    (n : ℕ) (want rest : Bytes) (s : Stream)
    → join s.incoming ≡ want ++ rest
    → length want ≡ n
    → (cs : List Bytes) × (read_exact n s ≡ ok (want, record s { incoming = cs }))
      × (join cs ≡ rest)
unfolding read_exact
read_exact-join n want rest s e h =
    let (cs, r, j) =
      read_loop-join (ended (failed "UnexpectedEof") s.ending) n [] want rest s.incoming e
        (omega arith) in
    (cs, rw r, j)

pub write_all_ok :
    (bytes : Bytes) (s : Stream)
    → s.broken ≡ none
    → write_all bytes s ≡ ok (record s { outgoing = s.outgoing ++ bytes })
unfolding write_all
write_all_ok bytes s works =
    ap
      (λ o. elim o as (λ _. Io Stream) [
        | none ↦ ok (record s { outgoing = s.outgoing ++ bytes })
        | some e ↦ failed e
      ])
      works
