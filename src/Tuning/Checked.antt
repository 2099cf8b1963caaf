-- ===== src/Tuning/Checked.antt =====
-- `calculate_all` and its checked counterpart: a result is valid only if all its numbers are.
use mathlib.Core.Option
use bhtune.Common.{ℕ, ◌||◌, not, List, map, Option, none, some, if◌then◌else◌}
use bhtune.Common.Int.{ℤ}
use bhtune.Float.{Floats}
use bhtune.Process.{ControllerDirection}
use bhtune.Constants.{ResponseLevel, all_levels}
use bhtune.LoopConfig.{LoopConfig}
use bhtune.Range.{PvRange}
use bhtune.Template.{DcsTemplate}
use bhtune.Tuning.Types.{
  Oscillation, TuningResult, PidParameters, TuningResultStatus, valid, invalid,
  TuningResultInvalidReason, non_finite_pv_amplitude, non_positive_pv_amplitude, non_finite_period,
  non_positive_period, non_finite_frequency, non_positive_frequency, non_finite_kp,
  non_finite_ti_minutes, non_finite_td_minutes, non_finite_proportional, non_finite_integral,
  non_finite_derivative, CheckedTuningResult,
}
use bhtune.Tuning.Measure.{measure_oscillation}
use bhtune.Tuning.Convert.{calculate_tuning_result, calculate_pid_parameters}

unfoldable pub invalid_result :
    {F : Type 0} → ResponseLevel → TuningResultInvalidReason → CheckedTuningResult F
invalid_result level reason = record {
  response_level = level;
  status = invalid;
  invalid_reason = some reason;
  tuning = none;
  pid = none;
}

unfoldable pub valid_result :
    {F : Type 0} → TuningResult F → PidParameters F → CheckedTuningResult F
valid_result tuning values = record {
  response_level = tuning.response_level;
  status = valid;
  invalid_reason = none;
  tuning = some tuning;
  pid = some values;
}

-- The four-way match of `usable_values`.
abbrev match_usable :
    {F : Type 0}
    → TuningResultStatus
    → Option TuningResultInvalidReason
    → Option (TuningResult F)
    → Option (PidParameters F)
    → Option (TuningResult F × PidParameters F)
match_usable valid none (some tuning) (some values) = some (tuning, values)
match_usable _ _ _ _ = none

unfoldable pub usable_values :
    {F : Type 0} → CheckedTuningResult F → Option (TuningResult F × PidParameters F)
usable_values r = match_usable r.status r.invalid_reason r.tuning r.pid

module _ {F D : Type 0} (fl : Floats F D) where
  open fl use {le, literal, is_finite}

  unfoldable pub calculate_all :
      List F
      → List F
      → List ℕ
      → ℤ
      → ControllerDirection
      → LoopConfig F
      → PvRange F
      → DcsTemplate
      → Option (List (TuningResult F × PidParameters F))
  calculate_all peaks troughs switch_times mv_sign_init direction config pv_range template =
      Option.map
        (λ osc.
          map
            (λ level.
              let r = calculate_tuning_result fl osc config level in
              (r, calculate_pid_parameters fl r template))
            all_levels)
        (measure_oscillation fl peaks troughs switch_times mv_sign_init direction config pv_range)

  unfoldable pub invalid_oscillation_reason : Oscillation F → Option TuningResultInvalidReason
  invalid_oscillation_reason o =
      if not (is_finite o.pv_amp_raw) || not (is_finite o.pv_amp_percent)
      then some non_finite_pv_amplitude
      else if le o.pv_amp_raw (literal 0 0) || le o.pv_amp_percent (literal 0 0)
      then some non_positive_pv_amplitude
      else if not (is_finite o.period_minutes)
      then some non_finite_period
      else if le o.period_minutes (literal 0 0)
      then some non_positive_period
      else if not (is_finite o.frequency)
      then some non_finite_frequency
      else if le o.frequency (literal 0 0)
      then some non_positive_frequency
      else none

  -- The early returns of `checked_result_from_tuning`, in order.
  unfoldable pub tuning_reason : TuningResult F → PidParameters F → Option TuningResultInvalidReason
  tuning_reason r v =
      if not (is_finite r.kp)
      then some non_finite_kp
      else if not (is_finite r.ti_minutes)
      then some non_finite_ti_minutes
      else if not (is_finite r.td_minutes)
      then some non_finite_td_minutes
      else if not (is_finite v.proportional)
      then some non_finite_proportional
      else if not (is_finite v.integral)
      then some non_finite_integral
      else if not (is_finite v.derivative)
      then some non_finite_derivative
      else none

  unfoldable pub checked_result_from_tuning : TuningResult F → DcsTemplate → CheckedTuningResult F
  checked_result_from_tuning r template =
      let v = calculate_pid_parameters fl r template in
      elim (tuning_reason r v) [
        | some reason ↦ invalid_result r.response_level reason
        | none ↦ valid_result r v
      ]

  -- One level of `calculate_all_checked`, behind the measurement.
  unfoldable pub checked_level :
      Oscillation F → LoopConfig F → DcsTemplate → ResponseLevel → CheckedTuningResult F
  checked_level osc config template level = elim (invalid_oscillation_reason osc) [
    | some reason ↦ invalid_result level reason
    | none ↦ checked_result_from_tuning (calculate_tuning_result fl osc config level) template
  ]

  unfoldable pub calculate_all_checked :
      List F
      → List F
      → List ℕ
      → ℤ
      → ControllerDirection
      → LoopConfig F
      → PvRange F
      → DcsTemplate
      → Option (List (CheckedTuningResult F))
  calculate_all_checked peaks troughs switch_times mv_sign_init direction config pv_range template =
      Option.map (λ osc. map (checked_level osc config template) all_levels)
        (measure_oscillation fl peaks troughs switch_times mv_sign_init direction config pv_range)
