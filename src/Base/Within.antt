-- ===== src/Base/Within.antt =====
-- A table whose entries all stand in another one, and what keeps a table within itself.
use mathlib.Core.Path.{◌≡◌}
use mathlib.Core.Logic.{inl, inr}
use mathlib.Core.Bool.{Bool}
use mathlib.Core.Option.{none, some}
use Prim.Native.Nat.{ℕ}
use native.Mathlib.Omega.{arith}
use owl_nest.Base.Tests.{Option-cases, nat_key}
use owl_nest.Base.Table.{Table, get, remove, retain, get-remove, get-retain}

abbrev pub Within {ℓ} : {V : Type ℓ} → Table ℕ V → Table ℕ V → Type ℓ
Within {V} m m' = (k : ℕ) (v : V) → get m k ≡ some v → get m' k ≡ some v

pub remove-Within {ℓ} : {V : Type ℓ} (m : Table ℕ V) (k : ℕ) → Within (remove m k) m
remove-Within m k j v h = ground (arith, get-remove m k j)

pub retain-Within {ℓ} : {V : Type ℓ} (p : ℕ → V → Bool) (m : Table ℕ V) → Within (retain p m) m
retain-Within p m j v h = ground (arith, get-retain p m j)

pub Within-refl {ℓ} : {V : Type ℓ} (m : Table ℕ V) → Within m m
Within-refl m k v h = h

pub Within-none {ℓ} :
    {V : Type ℓ} (m m' : Table ℕ V) (k : ℕ) → Within m m' → get m' k ≡ none → get m k ≡ none
Within-none m m' k sub h = elim (Option-cases (get m k)) [ inl e ↦ e | inr (v, e) ↦ cc (sub k v e) ]
