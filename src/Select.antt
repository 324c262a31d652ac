-- ===== src/Select.antt =====
-- The behaviour and the handler of the node, which the macros of owlnest-macro put together from those
-- of its protocols: values of one protocol out of many, and of each of them. A list of protocols stands
-- for the fields that a macro repeats its code for. Peers, connections, addresses and what libp2p hands
-- around are numbers, since they are only passed on.
pub mod Behaviours
pub mod Handlers
pub mod Examples
use owl_nest.Base.{ℕ, Option, none, some, List, [], ◌∷◌, ◌⊎◌, inl, inr}

module _ {ℓ} {X : Type ℓ} where
  -- An enum with a variant for each protocol, and a struct with a field for each.
  abbrev pub OneOf : (X → Type 0) → List X → Type 0
  OneOf F [] = ⊥
  OneOf F (x ∷ xs) = F x ⊎ OneOf F xs

  abbrev pub AllOf : (X → Type 0) → List X → Type 0
  AllOf F [] = Unit
  AllOf F (x ∷ xs) = F x × AllOf F xs

  -- One of the protocols, by its place.
  pub data Member : X → List X → Type ℓ where
    here : {x : X} {xs : List X} → Member x (x ∷ xs)
    there : {x y : X} {xs : List X} → Member x xs → Member x (y ∷ xs)

  -- The field of a protocol, and the value of a variant if it is the protocol's.
  abbrev pub field : (F : X → Type 0) {x : X} {xs : List X} → Member x xs → AllOf F xs → F x
  field F here all = all.0
  field F (there m) all = field F m all.1

  abbrev pub own : (F : X → Type 0) {x : X} {xs : List X} → Member x xs → OneOf F xs → Option (F x)
  own F here (inl a) = some a
  own F here (inr one) = none
  own F (there m) (inl a) = none
  own F (there m) (inr one) = own F m one

  abbrev pub inject : (F : X → Type 0) {x : X} {xs : List X} → Member x xs → F x → OneOf F xs
  inject F here a = inl a
  inject F (there m) a = inr (inject F m a)

  abbrev pub replace :
      (F : X → Type 0) {x : X} {xs : List X} → Member x xs → F x → AllOf F xs → AllOf F xs
  replace F here a all = (a, all.1)
  replace F (there m) a all = (all.0, replace F m a all.1)
