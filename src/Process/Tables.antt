-- ===== src/Process/Tables.antt =====
-- Indexed reads of the constant tables.
use bhtune.Common.{ℕ, zero, suc, List, [], ◌∷◌}

module _ {ℓ} {A : Type ℓ} where
  -- A read out of bounds would panic in Rust; `d` stands there, and no read of this library is one
  -- (`tables-InBounds` in Constants/Laws).
  abbrev pub get_or : List A → ℕ → A → A
  get_or [] i d = d
  get_or (x ∷ xs) zero d = x
  get_or (x ∷ xs) (suc i) d = get_or xs i d
