-- ===== src/Base/Result.antt =====
-- A value or an error, as a Go function returns them.

pub data Result {ℓ κ} (E : Type ℓ) (A : Type κ) : Type (ℓ ⊔ κ) where
  ok : A → Result E A
  err : E → Result E A
