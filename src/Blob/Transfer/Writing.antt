-- ===== src/Blob/Transfer/Writing.antt =====
-- A chunk is written: the loop over `write` in progress_ongoing_recv.
use owl_nest.Base.{
  ℕ, zero, suc, ◌+◌, ◌-◌, ◌<◌, ◌≤◌, ◌≡◌, refl, ◌⊎◌, inl, inr, true, false, List, [], ◌∷◌, ◌++◌,
  length, take, drop, arith, leb, take-append-drop, length-drop, take-length, nat_key, ◌∙◌, ap,
}
use mathlib.Core.List.{append-nil}
use native.Mathlib.Nat.{zero-add, add-zero, suc-add}
use owl_nest.Blob.Types.{Bytes, WriteAnswer, wrote, write_failed}
use owl_nest.Blob.Recv.{write_loop, WriteEnd, all_written}

-- Slices laid end to end.
abbrev pub join : List Bytes → Bytes
join [] = []
join (s ∷ ss) = s ++ join ss

-- The system takes something at every call, never more than it is given, until nothing remains.
abbrev pub Accepts : List WriteAnswer → ℕ → Type 0
Accepts [] rest = ⊥
Accepts (write_failed e ∷ answers) rest = ⊥
Accepts (wrote n ∷ answers) rest =
    (0 < n) × (n ≤ rest) × ((rest ≡ n) ⊎ ((n < rest) × Accepts answers (rest - n)))

drop-drop {ℓ} : {A : Type ℓ} (m n : ℕ) (xs : List A) → drop n (drop m xs) ≡ drop (m + n) xs
drop-drop zero n xs = rw zero-add
drop-drop (suc m) zero [] = rw add-zero
drop-drop (suc m) (suc n) [] = rw suc-add
drop-drop (suc m) n (x ∷ xs) = rw suc-add (drop-drop m n xs)

drop-length {ℓ} : {A : Type ℓ} (xs : List A) → drop (length xs) xs ≡ []
drop-length [] = refl
drop-length (x ∷ xs) = drop-length xs

-- What the loop has done when it ends: all is written, and the slices are what was left to write.
pub record Written (content : Bytes) (cursor : ℕ) (r : List Bytes × WriteEnd) : Type 0 where
  pub end : r.1 ≡ all_written (length content)
  pub slices : join r.0 ≡ drop cursor content

last_slice :
    (content : Bytes) (cursor n : ℕ)
    → length content ≡ cursor + n
    → take n (drop cursor content) ++ [] ≡ drop cursor content
last_slice content cursor n e =
    let whole : n ≡ length (drop cursor content) = omega (arith, length-drop cursor content) in
    append-nil _ ∙ rw whole (take-length (drop cursor content))

pub write_loop-Written :
    (answers : List WriteAnswer) (content : Bytes) (cursor : ℕ)
    → cursor < length content
    → Accepts answers (length content - cursor)
    → Written content cursor (write_loop answers content cursor)
unfolding write_loop
write_loop-Written [] content cursor h a = absurd a
write_loop-Written (write_failed e ∷ answers) content cursor h a = absurd a
write_loop-Written (wrote n ∷ answers) content cursor h (pos, fits, inl last) =
    let stop : leb (length content) (cursor + n) ≡ true = ground arith in
    rw stop (record {
      end = ap all_written (omega arith);
      slices = last_slice content cursor n (omega arith);
    })
write_loop-Written (wrote n ∷ answers) content cursor h (pos, fits, inr (more, a)) =
    let go_on : leb (length content) (cursor + n) ≡ false = ground arith in
    let same : length content - cursor - n ≡ length content - (cursor + n) = omega arith in
    let rest = write_loop-Written answers content (cursor + n) (omega arith) (rw same at a) in
    rw go_on (record {
      end = rest.end;
      slices = rw (rest.slices, ← drop-drop cursor n content) (take-append-drop n _);
    })
