-- ===== src/Prelude/Results.antt =====
-- wcl::result<A, E>: a value or an error.
pub data Result {ℓ κ} (E : Type κ) (A : Type ℓ) : Type (ℓ ⊔ κ) where
  ok : A → Result E A
  err : E → Result E A
