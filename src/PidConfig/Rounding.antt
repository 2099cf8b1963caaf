-- ===== src/PidConfig/Rounding.antt =====
-- Which digits of a rounding are valid, and that the casts of rounding are harmless.
use bhtune.Common.{ℕ, ◌≤◌, ◌≡◌, ◌⊎◌, false, arith}
use bhtune.Common.Int.{ℤ, pos, negsuc, ◌-ℤ◌}
use bhtune.PidConfig.{PidRounding, decimal_places, plain_places, is_scientific}

-- Plain notation is chosen only where the number of places that is cast to `usize` is not negative;
-- with at most seven digits it is at most ten.
pub plain_places_nonneg :
    (digits : ℕ) (exponent : ℤ)
    → digits ≤ 7
    → is_scientific digits exponent ≡ false
    → (pos digits -ℤ pos 1 -ℤ exponent ≡ pos (plain_places digits exponent))
      × (plain_places digits exponent ≤ 10)
unfolding is_scientific plain_places ◌-ℤ◌
plain_places_nonneg digits (pos n) small h = ground arith
plain_places_nonneg digits (negsuc n) small h = ground arith

abbrev pub HasValidDigits : PidRounding → Type 0
HasValidDigits r = (r.digits ≤ 7) × ((r.kind ≡ decimal_places) ⊎ (1 ≤ r.digits))
