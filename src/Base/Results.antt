-- ===== src/Base/Results.antt =====
-- `Result<A, E>`, with the error type first, and its chains.
pub data Result {ℓ κ} (E : Type κ) (A : Type ℓ) : Type (ℓ ⊔ κ) where
  ok : A → Result E A
  err : E → Result E A
