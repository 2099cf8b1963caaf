-- ===== src/Range.antt =====
-- crates/bhtune-core/src/range.rs: the PV and MV ranges and their validating constructors.
pub mod Laws
use Prim.Native.String.{String}
use bhtune.Common.{Bool, ◌&&◌, not}
use bhtune.Common.Result.{Result, ok, ◌>>=◌, ◌>>◌, fail_if}
use bhtune.Float.{Floats}

pub record PvRange (F : Type 0) : Type 0 where
  pub high : F
  pub low : F

pub record MvRange (F : Type 0) : Type 0 where
  pub high : F
  pub low : F

pub data RangeError (F : Type 0) : Type 0 where
  not_finite : String → F → RangeError F
  zero_span : F → F → RangeError F
  low_not_below_high : F → F → RangeError F

module _ {F D : Type 0} (fl : Floats F D) where
  open fl use {is_finite, eq, le}

  unfoldable pub new_pv_range : F → F → Result (RangeError F) (PvRange F)
  new_pv_range high low = do
    fail_if (not (is_finite high)) (not_finite "pv_range_high" high)
    fail_if (not (is_finite low)) (not_finite "pv_range_low" low)
    fail_if (eq high low) (zero_span high low)
    ok (record { high = high; low = low })

  unfoldable pub new_mv_range : F → F → Result (RangeError F) (MvRange F)
  new_mv_range high low = do
    fail_if (not (is_finite high)) (not_finite "mv_range_high" high)
    fail_if (not (is_finite low)) (not_finite "mv_range_low" low)
    fail_if (le high low) (low_not_below_high low high)
    ok (record { high = high; low = low })

  unfoldable pub contains : MvRange F → F → Bool
  contains r value = le r.low value && le value r.high
