-- ===== src/Float/Ops.antt =====
-- The operations of `f32` (the type `F`) and `f64` (the type `D`) that bhtune-core calls.
use bhtune.Common.{ℕ, ◌≡◌, Bool, false, List}
use bhtune.Common.Text.{Text}
use bhtune.Common.Int.{ℤ}

pub record Floats (F D : Type 0) : Type 0 where
  -- `+ - * /` on `f32`, `f32::max` and `f32::min`.
  pub add : F → F → F
  pub sub : F → F → F
  pub mul : F → F → F
  pub div : F → F → F
  pub max : F → F → F
  pub min : F → F → F
  -- `a <= b`, `a < b`, `a == b`; `a >= b` is `le b a`. All are false at a NaN.
  pub le : F → F → Bool
  pub lt : F → F → Bool
  pub eq : F → F → Bool
  pub is_finite : F → Bool
  -- `literal m e` is the literal `m / 10^e`, `of_int` is `as f32` from an integer type.
  pub literal : ℕ → ℕ → F
  pub of_int : ℤ → F
  pub pi : F
  -- `f32::abs` and `f32::EPSILON`.
  pub abs : F → F
  pub epsilon : F
  -- `Iterator::sum`.
  pub sum : List F → F
  -- `as f64`, `as f32`, and the `f64` operations in use.
  pub widen : F → D
  pub narrow : D → F
  pub sub_wide : D → D → D
  pub mul_wide : D → D → D
  pub abs_wide : D → D
  pub le_wide : D → D → Bool
  pub literal_wide : ℕ → ℕ → D
  pub pi_wide : D

-- A value less itself is 0 if it is finite and NaN if not, and neither is at least 0.01.
abbrev pub SelfDiffSmall : {F D : Type 0} → Floats F D → Type 0
SelfDiffSmall {D} fl =
    (x : D) → fl.le_wide (fl.literal_wide 1 2) (fl.abs_wide (fl.sub_wide x x)) ≡ false

-- What the rounding and the display of controller values call besides.
pub record Decimals (F D : Type 0) : Type 0 where
  pub div_wide : D → D → D
  pub eq_wide : D → D → Bool
  pub log10 : D → D
  pub floor : D → D
  pub round : D → D
  -- `as i32`, and `10_f64.powi`.
  pub to_i32 : D → ℤ
  pub pow10 : ℤ → D
  -- `{:.n$}` and `{:.n$e}` of an `f64`, `{:.n$}` and `to_string` of an `f32`.
  pub show_places : D → ℕ → Text
  pub show_exponent : D → ℕ → Text
  pub show_places_narrow : F → ℕ → Text
  pub show_narrow : F → Text
