-- ===== src/Prelude/Results.antt =====
-- What a Go function returns as a value with an error beside it: one of the two.
pub data Result {ℓ κ} (E : Type ℓ) (A : Type κ) : Type (ℓ ⊔ κ) where
  ok : A → Result E A
  err : E → Result E A
