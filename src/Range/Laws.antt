-- ===== src/Range/Laws.antt =====
-- Which ranges the validating constructors accept.
use bhtune.Common.{◌≡◌, ◌↔◌, true, false, arith}
use bhtune.Common.Result.{ok}
use bhtune.Float.{Floats}
use bhtune.Range.{new_pv_range, new_mv_range}

module _ {F D : Type 0} (fl : Floats F D) (high low : F) where
  -- `MvRange::new` accepts exactly two finite bounds with not `low >= high`, and `PvRange::new` exactly
  -- two finite bounds that are not equal; either then returns these bounds.
  pub new_range_iff :
      ((new_mv_range fl high low ≡ ok (record { high = high; low = low }))
        ↔ ((fl.is_finite high ≡ true) × (fl.is_finite low ≡ true) × (fl.le high low ≡ false)))
      × ((new_pv_range fl high low ≡ ok (record { high = high; low = low }))
          ↔ ((fl.is_finite high ≡ true) × (fl.is_finite low ≡ true) × (fl.eq high low ≡ false)))
  unfolding new_mv_range new_pv_range
  new_range_iff = ground arith
