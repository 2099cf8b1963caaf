-- ===== src/Tuning/Measure.antt =====
-- `measure_oscillation`: the assertions on the recorded lists, and the measured oscillation.
-- `none` is a panic of an assertion.
use mathlib.Core.Option
use bhtune.Common.{
  ℕ, ◌+◌, ◌*◌, Bool, ◌&&◌, List, [], ◌∷◌, length, Option, none, some, leb, ◌==◌, if◌then◌else◌,
}
use bhtune.Common.Int.{ℤ, pos, ◌*ℤ◌, eqb_ℤ, sub_ℕ, trunc_div}
use bhtune.Float.{Floats}
use bhtune.Process.{ControllerDirection, action_multiplier}
use bhtune.LoopConfig.{LoopConfig}
use bhtune.Range.{PvRange}
use bhtune.Tuning.Types.{Oscillation}

abbrev pub tail {ℓ} : {A : Type ℓ} → List A → List A
tail [] = []
tail (_ ∷ xs) = xs

-- `v[0]` and `v[v.len() - 1]`.
abbrev pub last_of : ℕ → List ℕ → ℕ
last_of t [] = t
last_of t (u ∷ us) = last_of u us

abbrev pub span : List ℕ → ℤ
span [] = pos 0
span (t ∷ ts) = sub_ℕ (last_of t ts) t

module _ {F D : Type 0} (fl : Floats F D) where
  open fl use {sub, mul, div, literal, of_int, sum}

  -- The sums of the peaks and the troughs, without the first recorded extremum; `none` where an
  -- assertion on the lengths fails.
  unfoldable pub extrema_sums : Bool → List F → List F → ℕ → Option (F × F)
  extrema_sums first_switch_is_peak peaks troughs num_cycles_count =
      if first_switch_is_peak
      then (if length peaks == num_cycles_count + 1 && length troughs == num_cycles_count
          then some (sum (tail peaks), sum troughs)
          else none)
      else if length troughs == num_cycles_count + 1 && length peaks == num_cycles_count
      then some (sum peaks, sum (tail troughs))
      else none

  -- The oscillation from the two sums and the elapsed time in nanoseconds.
  unfoldable pub oscillation_of : F × F → ℤ → ℕ → PvRange F → Oscillation F
  oscillation_of (peaks_sum, troughs_sum) elapsed num_cycles_count pv_range =
      let elapsed_ms = trunc_div elapsed 1000000 in
      let secs_for_period = div (of_int elapsed_ms) (literal 1000 0) in
      let count = of_int (pos num_cycles_count) in
      let period_minutes = div (div secs_for_period (literal 60 0)) count in
      let pv_amp_raw = div (sub peaks_sum troughs_sum) (mul (literal 2 0) count) in
      record {
        period_minutes = period_minutes;
        frequency = div (mul (literal 2 0) fl.pi) period_minutes;
        pv_amp_raw = pv_amp_raw;
        pv_amp_percent = mul (div pv_amp_raw (sub pv_range.high pv_range.low)) (literal 100 0);
      }

  unfoldable pub measure_oscillation :
      List F
      → List F
      → List ℕ
      → ℤ
      → ControllerDirection
      → LoopConfig F
      → PvRange F
      → Option (Oscillation F)
  measure_oscillation peaks troughs switch_times mv_sign_init direction config pv_range =
      let n = config.num_cycles_count in
      let first_switch_is_peak = eqb_ℤ (mv_sign_init *ℤ action_multiplier direction) (pos 1) in
      if leb 2 (length switch_times) && length switch_times == n * 2 + 1
      then Option.map (λ sums. oscillation_of sums (span switch_times) n pv_range)
          (extrema_sums first_switch_is_peak peaks troughs n)
      else none
