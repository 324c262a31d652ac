-- ===== src/Base/Results.antt =====
-- `Result`, with the type of the error first.
pub data Result {ℓ κ} (E : Type ℓ) (A : Type κ) : Type (ℓ ⊔ κ) where
  ok : A → Result E A
  err : E → Result E A
