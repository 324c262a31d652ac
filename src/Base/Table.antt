-- ===== src/Base/Table.antt =====
-- `HashMap` as an association list. The newest entry of a key counts; `bindings` lists each key
-- once, so what the program does for each entry is a walk of `bindings`, in an order left open.
use mathlib.Core.Path.{◌≡◌, refl}
use mathlib.Core.Bool.{Bool, true, false}
use mathlib.Core.Logic.{◌⊎◌, inl, inr}
use mathlib.Core.Option.{Option, none, some}
use mathlib.Core.List.{List, [], ◌∷◌, map}
use native.Mathlib.Omega.{arith}
use owl_nest.Base.Tests.{if◌then◌else◌, Key, ◌==◌, holds, keep}
use owl_nest.Base.Lists.{contains, select}

pub record Table {ℓ κ} (K : Type ℓ) (V : Type κ) : Type (ℓ ⊔ κ) where
  pub entries : List (K × V)

module _ {ℓ κ} {K : Type ℓ} {V : Type κ} ⦃e : Key K⦄ where
  find : K → List (K × V) → Option V
  find k [] = none
  find k ((j, v) ∷ m) = if j == k then some v else find k m

  without : K → List (K × V) → List (K × V)
  without k [] = []
  without k ((j, v) ∷ m) = let rest = without k m in if j == k then rest else (j, v) ∷ rest

  once : List (K × V) → List (K × V)
  once [] = []
  once ((j, v) ∷ m) = (j, v) ∷ without j (once m)

  passing : (K → V → Bool) → List (K × V) → List (K × V)
  passing p [] = []
  passing p ((j, v) ∷ m) = let rest = passing p m in if p j v then (j, v) ∷ rest else without j rest

  find-without :
      (k j : K) (m : List (K × V)) → find j (without k m) ≡ (if k == j then none else find j m)
  unfolding find without
  find-without k j [] = ground arith
  find-without k j ((i, v) ∷ m) =
      ground (arith, find-without k j m, e.same_iff i k, e.same_iff i j, e.same_iff k j)

  find-once : (k : K) (m : List (K × V)) → find k (once m) ≡ find k m
  unfolding find once
  find-once k [] = refl
  find-once k ((j, v) ∷ m) = ground (arith, find-without j k (once m), find-once k m)

  find-passing :
      (p : K → V → Bool) (k : K) (m : List (K × V)) → find k (passing p m) ≡ keep (p k) (find k m)
  unfolding find passing
  find-passing p k [] = refl
  find-passing p k ((j, v) ∷ m) =
      ground (arith, find-passing p k m, find-without j k (passing p m), e.same_iff j k)

  keys_of : (K → V → Bool) → List (K × V) → List K
  keys_of p m = map (λ b. b.0) (select (λ b. p b.0 b.1) m)

  contains-keys_of-without :
      (p : K → V → Bool) (j k : K) (m : List (K × V))
      → contains k (keys_of p (without j m)) ≡ (if j == k then false else contains k (keys_of p m))
  unfolding keys_of without select contains
  contains-keys_of-without p j k [] = ground arith
  contains-keys_of-without p j k ((i, v) ∷ m) =
      ground
        (arith, contains-keys_of-without p j k m, e.same_iff i j, e.same_iff i k, e.same_iff j k)

  contains-keys_of-once :
      (p : K → V → Bool) (k : K) (m : List (K × V))
      → contains k (keys_of p (once m)) ≡ holds (p k) (find k m)
  unfolding keys_of once select contains find
  contains-keys_of-once p k [] = refl
  contains-keys_of-once p k ((j, v) ∷ m) =
      ground (
        arith,
        contains-keys_of-without p j k (once m),
        contains-keys_of-once p k m,
        e.same_iff j k,
      )

module _ {ℓ κ} {K : Type ℓ} {V : Type κ} ⦃e : Key K⦄ where
  unfoldable pub empty : Table K V
  empty = record { entries = [] }

  unfoldable pub get : Table K V → K → Option V
  unfolding find
  get m k = find k m.entries

  unfoldable pub remove : Table K V → K → Table K V
  unfolding without
  remove m k = record { entries = without k m.entries }

  unfoldable pub insert : Table K V → K → V → Table K V
  unfolding without
  insert m k v = record { entries = (k, v) ∷ without k m.entries }

  unfoldable pub retain : (K → V → Bool) → Table K V → Table K V
  unfolding passing without
  retain p m = record { entries = passing p m.entries }

  unfoldable pub bindings : Table K V → List (K × V)
  unfolding once without
  bindings m = once m.entries

  -- The keys of the entries that pass a test, each once.
  unfoldable pub keys_where : (K → V → Bool) → Table K V → List K
  unfolding keys_of once without select
  keys_where p m = keys_of p (once m.entries)

  unfoldable pub is_empty : Table K V → Bool
  is_empty m = elim m.entries [ [] ↦ true | x ∷ xs ↦ false ]

  -- An empty table has no entry, and any other has one.
  pub get-is_empty :
      (m : Table K V)
      → ((is_empty m ≡ true) × ((k : K) → get m k ≡ none))
        ⊎ ((is_empty m ≡ false) × ((k : K) × (v : V) × (get m k ≡ some v)))
  unfolding is_empty get find
  get-is_empty m = split m.entries refl
    where
      split :
          (xs : List (K × V))
          → m.entries ≡ xs
          → ((is_empty m ≡ true) × ((k : K) → get m k ≡ none))
            ⊎ ((is_empty m ≡ false) × ((k : K) × (v : V) × (get m k ≡ some v)))
      split [] f = inl (rw (f, is_empty), λ k. rw (f, get))
      split ((k, v) ∷ xs) f =
          inr (rw (f, is_empty), (k, v, rw (f, get) (rw ((e.same_iff k k).1 refl))))

  pub get-remove :
      (m : Table K V) (k j : K) → get (remove m k) j ≡ (if k == j then none else get m j)
  unfolding get remove
  get-remove m k j = find-without k j m.entries

  pub get-insert :
      (m : Table K V) (k j : K) (v : V)
      → get (insert m k v) j ≡ (if k == j then some v else get m j)
  unfolding get insert find
  get-insert m k j v = ground (arith, find-without k j m.entries)

  pub get-retain :
      (p : K → V → Bool) (m : Table K V) (j : K) → get (retain p m) j ≡ keep (p j) (get m j)
  unfolding get retain
  get-retain p m j = find-passing p j m.entries

  -- The walk shows each key's entry.
  pub find-bindings : (m : Table K V) (j : K) → get (record { entries = bindings m }) j ≡ get m j
  unfolding get bindings
  find-bindings m j = find-once j m.entries

  pub contains-keys_where :
      (p : K → V → Bool) (m : Table K V) (j : K)
      → contains j (keys_where p m) ≡ holds (p j) (get m j)
  unfolding keys_where get
  contains-keys_where p m j = contains-keys_of-once p j m.entries

pub get-empty {ℓ κ} : {K : Type ℓ} {V : Type κ} ⦃e : Key K⦄ (k : K) → get (empty {V = V}) k ≡ none
unfolding get empty find
get-empty k = refl

pub ruleset table_laws = (get-empty, get-remove, get-insert, get-retain)
