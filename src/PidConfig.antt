-- ===== src/PidConfig.antt =====
-- crates/bhtune-core/src/pid_config.rs: how a DCS expresses PID parameters, and the rounding of the
-- values that are written to the controller.
pub mod Rounding
use bhtune.Common.{
  ℕ, ◌+◌, ◌-◌, Bool, true, false, ◌&&◌, ◌||◌, not, leb, ltb, ◌==◌, if◌then◌else◌, [], ◌∷◌,
}
use bhtune.Common.Int.{ℤ, pos, negsuc, ◌-ℤ◌, leb_ℤ, ltb_ℤ, pos_part}
use bhtune.Common.Text.{Text}
use bhtune.Common.Result.{Result, ok, err, ◌>>=◌, ◌>>◌, fail_if}
use bhtune.Float.{Floats, Decimals}

pub data ProportionalType : Type 0 where
  gain band : ProportionalType

pub data IntegralType : Type 0 where
  reset_time reset_rate reset_gain : IntegralType

pub data DerivativeType : Type 0 where
  derivative_time derivative_gain : DerivativeType

pub data TimeUnit : Type 0 where
  seconds minutes : TimeUnit

pub data PidRoundingKind : Type 0 where
  decimal_places significant_digits : PidRoundingKind

-- `digits` is a `u8`.
pub record PidRounding : Type 0 where
  pub kind : PidRoundingKind
  pub digits : ℕ

abbrev pub default_rounding : PidRounding
default_rounding = record { kind = significant_digits; digits = 3 }

pub record RoundedPidValue (F : Type 0) : Type 0 where
  pub value : F
  pub display : Text

pub data PidRoundingError : Type 0 where
  invalid_digits : PidRoundingKind → ℕ → PidRoundingError
  non_finite non_positive rounded_to_zero : PidRoundingError

abbrev is_significant : PidRoundingKind → Bool
is_significant decimal_places = false
is_significant significant_digits = true

unfoldable pub validate_rounding : PidRounding → Result PidRoundingError (Unit {0})
validate_rounding r =
    fail_if (ltb 7 r.digits || (is_significant r.kind && r.digits == 0))
      (invalid_digits r.kind r.digits)

-- The places of the plain notation; the cast to `usize` meets no negative number
-- (`plain_places_nonneg` in PidConfig/Rounding).
unfoldable pub plain_places : ℕ → ℤ → ℕ
plain_places digits exponent = pos_part (pos digits -ℤ pos 1 -ℤ exponent)

-- Whether a value with this exponent is written in scientific notation.
unfoldable pub is_scientific : ℕ → ℤ → Bool
is_scientific digits exponent = leb_ℤ (pos digits) exponent || ltb_ℤ exponent (negsuc 3)

module _ {F D : Type 0} (fl : Floats F D) (dc : Decimals F D) where
  open fl use {widen, narrow, mul_wide, abs_wide, literal_wide, literal, is_finite}
  open dc use {div_wide, eq_wide, log10, floor, round, to_i32, pow10}
  open dc use {show_places, show_exponent, show_places_narrow, show_narrow}

  -- `x.abs().log10().floor() as i32`.
  unfoldable pub exponent_of : D → ℤ
  exponent_of x = to_i32 (floor (log10 (abs_wide x)))

  -- The `match` that picks the power of ten; `value != 0.0` is tested on the `f32`.
  unfoldable pub places_of : PidRoundingKind → ℕ → F → ℤ
  places_of decimal_places digits value = pos digits
  places_of significant_digits digits value =
      if fl.eq value (literal 0 0) then pos 0 else pos digits -ℤ pos 1 -ℤ exponent_of (widen value)

  -- The rounded `f64`, a zero without its sign.
  unfoldable pub rounded_wide : PidRoundingKind → ℕ → F → D
  rounded_wide kind digits value =
      let scale = pow10 (places_of kind digits value) in
      let rounded = div_wide (round (mul_wide (widen value) scale)) scale in
      if eq_wide rounded (literal_wide 0 0) then literal_wide 0 0 else rounded

  unfoldable pub display_of : PidRoundingKind → ℕ → D → Text
  display_of decimal_places digits rounded = show_places rounded digits
  display_of significant_digits digits rounded =
      if eq_wide rounded (literal_wide 0 0)
      then b'0' ∷ []
      else let exponent = exponent_of rounded in
        if is_scientific digits exponent
        then show_exponent rounded (digits - 1)
        else show_places rounded (plain_places digits exponent)

  unfoldable pub round_value : PidRounding → F → Result PidRoundingError (RoundedPidValue F)
  round_value r value = do
    validate_rounding r
    fail_if (not (is_finite value)) non_finite
    let rounded = rounded_wide r.kind r.digits value
    let target = narrow rounded
    fail_if (not (is_finite target)) non_finite
    ok (record { value = target; display = display_of r.kind r.digits rounded })

  unfoldable pub disabled_value : PidRounding → F → RoundedPidValue F
  disabled_value r value = record {
    value = value;
    display =
        if is_significant r.kind then show_narrow value else show_places_narrow value r.digits;
  }
