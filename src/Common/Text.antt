-- ===== src/Common/Text.antt =====
-- Texts as lists of code points. Which code points are whitespace or control characters is Rust's
-- table, a parameter.
use Prim.Native.Nat.{ℕ}
use mathlib.Core.Path.{◌≡◌}
use mathlib.Core.Bool.{Bool, true, false, ◌&&◌, ◌||◌}
use mathlib.Core.Logic.{◌↔◌}
use mathlib.Core.List.{List, [], ◌∷◌, reverse}
use native.Mathlib.Omega.{arith}
use bhtune.Common.Tests.{◌==◌, if◌then◌else◌}

abbrev pub Text : Type 0
Text = List ℕ

-- `char::is_whitespace` and `char::is_control`.
pub record Chars : Type 0 where
  pub is_whitespace : ℕ → Bool
  pub is_control : ℕ → Bool

unfoldable pub text_eq : Text → Text → Bool
text_eq [] [] = true
text_eq (a ∷ s) (b ∷ t) = a == b && text_eq s t
text_eq _ _ = false

pub text_eq_iff : (s t : Text) → (text_eq s t ≡ true) ↔ (s ≡ t)
unfolding text_eq
text_eq_iff [] [] = ground arith
text_eq_iff [] (b ∷ t) = ground arith
text_eq_iff (a ∷ s) [] = ground arith
text_eq_iff (a ∷ s) (b ∷ t) = ground (arith, (text_eq_iff s t).0, (text_eq_iff s t).1)

abbrev pub is_empty : Text → Bool
is_empty [] = true
is_empty (_ ∷ _) = false

unfoldable pub any : (ℕ → Bool) → Text → Bool
any f [] = false
any f (c ∷ s) = f c || any f s

unfoldable pub all : (ℕ → Bool) → Text → Bool
all f [] = true
all f (c ∷ s) = f c && all f s

-- `str::trim_start` and `str::trim`, by the characters to drop.
unfoldable pub trim_start : (ℕ → Bool) → Text → Text
trim_start f [] = []
trim_start f (c ∷ s) = let rest = trim_start f s in if f c then rest else c ∷ s

unfoldable pub trim : (ℕ → Bool) → Text → Text
unfolding trim_start
trim f s = reverse (trim_start f (reverse (trim_start f s)))
