-- ===== src/Base/Lists.antt =====
-- Lists measured by native numbers, and sets as lists without order.
use Prim.Native.Nat.{ℕ, zero, suc, ◌+◌, ◌-◌, min}
use mathlib.Core.Path.{◌≡◌, refl, ap}
use mathlib.Core.Bool.{Bool, false, not, ◌||◌, ◌&&◌}
use mathlib.Core.List.{List, [], ◌∷◌, ◌++◌}
use native.Mathlib.Omega.{arith}
use owl_nest.Base.Tests.{if◌then◌else◌, Key, ◌==◌}

module _ {ℓ} {A : Type ℓ} where
  abbrev pub length : List A → ℕ
  length [] = 0
  length (x ∷ xs) = suc (length xs)

  abbrev pub take : ℕ → List A → List A
  take zero xs = []
  take (suc n) [] = []
  take (suc n) (x ∷ xs) = x ∷ take n xs

  abbrev pub drop : ℕ → List A → List A
  drop zero xs = xs
  drop (suc n) [] = []
  drop (suc n) (x ∷ xs) = drop n xs

  -- The entries that pass a test, in order.
  unfoldable pub select : (A → Bool) → List A → List A
  select p [] = []
  select p (x ∷ xs) = let rest = select p xs in if p x then x ∷ rest else rest

  pub length-append : (xs ys : List A) → length (xs ++ ys) ≡ length xs + length ys
  length-append [] ys = omega arith
  length-append (x ∷ xs) ys = omega (arith, length-append xs ys)

  pub length-take : (n : ℕ) (xs : List A) → length (take n xs) ≡ min n (length xs)
  length-take zero xs = omega arith
  length-take (suc n) [] = omega arith
  length-take (suc n) (x ∷ xs) = omega (arith, length-take n xs)

  pub length-drop : (n : ℕ) (xs : List A) → length (drop n xs) ≡ length xs - n
  length-drop zero xs = omega arith
  length-drop (suc n) [] = omega arith
  length-drop (suc n) (x ∷ xs) = omega (arith, length-drop n xs)

  pub take-append-drop : (n : ℕ) (xs : List A) → take n xs ++ drop n xs ≡ xs
  take-append-drop zero xs = refl
  take-append-drop (suc n) [] = refl
  take-append-drop (suc n) (x ∷ xs) = rw (take-append-drop n xs)

  pub take-length : (xs : List A) → take (length xs) xs ≡ xs
  take-length [] = refl
  take-length (x ∷ xs) = ap (◌∷◌ x) (take-length xs)

-- `HashSet`: a list in which the order means nothing.
module _ {ℓ} {A : Type ℓ} ⦃e : Key A⦄ where
  unfoldable pub contains : A → List A → Bool
  contains a [] = false
  contains a (x ∷ xs) = x == a || contains a xs

  unfoldable pub set_insert : A → List A → List A
  set_insert a xs = if contains a xs then xs else a ∷ xs

  unfoldable pub set_remove : A → List A → List A
  set_remove a [] = []
  set_remove a (x ∷ xs) = let rest = set_remove a xs in if x == a then rest else x ∷ rest

  pub contains-set_insert :
      (a b : A) (xs : List A) → contains b (set_insert a xs) ≡ (a == b || contains b xs)
  unfolding contains set_insert
  contains-set_insert a b xs = ground (arith, e.same_iff a b)

  pub contains-set_remove :
      (a b : A) (xs : List A) → contains b (set_remove a xs) ≡ (not (a == b) && contains b xs)
  unfolding contains set_remove
  contains-set_remove a b [] = ground arith
  contains-set_remove a b (x ∷ xs) =
      ground (arith, contains-set_remove a b xs, e.same_iff x a, e.same_iff x b, e.same_iff a b)
