-- ===== src/Base/Results.antt =====
-- `anyhow::Result`, the error without its text.
pub data Fallible {ℓ} (A : Type ℓ) : Type ℓ where
  err : Fallible A
  ok : A → Fallible A
