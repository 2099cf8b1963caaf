-- ===== src/Tests/Tuning.antt =====
-- The theorems on the calculated parameters and the controller's targets at sample data.
use bhtune.Common.{ℕ, ◌≡◌, ◌↔◌, ◌⊎◌, List, [], ◌∷◌, none, some}
use bhtune.Common.Int.{ℤ, pos}
use bhtune.Common.Result.{ok}
use bhtune.Float.{fixed}
use bhtune.Process.{reverse, pi}
use bhtune.Constants.{moderate}
use bhtune.Mrft.Engine.{seconds}
use bhtune.Tuning.Types.{Oscillation, PidParameters}
use bhtune.Tuning.Convert.{calculate_tuning_result, calculate_pid_parameters}
use bhtune.Tuning.Checked.{checked_level, usable_values, calculate_all, calculate_all_checked}
use bhtune.Tuning.Controller.{ControllerPidValues, controller_pid_values}
use bhtune.Tuning.Safety.{IsSafe, BothAgree, checked_level-IsSafe, calculate_all_checked_refines}
use bhtune.Tuning.Targets.{
  IsActiveTarget, IsIntegralTarget, IsDerivativeTarget, controller_pid_values_iff,
}
use bhtune.Tests.Samples.{config, template, one_place, pv_range, thousandths_printer}

abbrev oscillation : Oscillation ℤ
oscillation = record {
  period_minutes = pos 2000;
  frequency = pos 3142;
  pv_amp_raw = pos 4000;
  pv_amp_percent = pos 2000;
}

checked_level-IsSafe_example :
    let r = calculate_tuning_result fixed oscillation config moderate in
    let v = calculate_pid_parameters fixed r template in
    let checked = checked_level fixed oscillation config template moderate in
    ((usable_values checked ≡ some (r, v)) ↔ IsSafe fixed oscillation r v)
    × ((usable_values checked ≡ none) ⊎ (usable_values checked ≡ some (r, v)))
checked_level-IsSafe_example = checked_level-IsSafe fixed oscillation config template moderate

abbrev peaks : List ℤ
peaks = pos 61000 ∷ pos 60000 ∷ []

abbrev troughs : List ℤ
troughs = pos 41000 ∷ []

abbrev times : List ℕ
times = seconds 1 ∷ seconds 31 ∷ seconds 61 ∷ []

calculate_all_checked_refines_example :
    BothAgree fixed
      (calculate_all_checked fixed peaks troughs times (pos 1) reverse config pv_range template)
      (calculate_all fixed peaks troughs times (pos 1) reverse config pv_range template)
calculate_all_checked_refines_example =
    calculate_all_checked_refines fixed peaks troughs times (pos 1) reverse config pv_range template

abbrev values : PidParameters ℤ
values = record {
  response_level = moderate;
  proportional = pos 1260;
  integral = pos 2220;
  derivative = pos 0;
}

abbrev targets : ControllerPidValues ℤ
targets = record {
  response_level = moderate;
  proportional = record { value = pos 1300; display = 0 ∷ 1 ∷ [] };
  integral = record { value = pos 2200; display = 0 ∷ 1 ∷ [] };
  derivative = record { value = pos 0; display = 0 ∷ 1 ∷ [] };
}

controller_pid_values_iff_example :
    (controller_pid_values fixed thousandths_printer values pi template ≡ ok targets) ↔ (
      (moderate ≡ moderate)
      × IsActiveTarget fixed thousandths_printer one_place (pos 1260) targets.proportional
      × IsIntegralTarget fixed thousandths_printer pi one_place template.integral_type
          (pos 2220)
          targets.integral
      × IsDerivativeTarget fixed thousandths_printer pi one_place (pos 0) targets.derivative)
controller_pid_values_iff_example =
    controller_pid_values_iff fixed thousandths_printer values pi template targets
