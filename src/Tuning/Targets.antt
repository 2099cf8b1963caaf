-- ===== src/Tuning/Targets.antt =====
-- Which targets reach the controller.
use Prim.Native.String.{String}
use bhtune.Common.{◌≡◌, ap, ◌↔◌, false, arith}
use bhtune.Common.Result.{Result, ok}
use bhtune.Float.{Floats, Decimals}
use bhtune.Process.{ControllerType, p, pi, pid}
use bhtune.PidConfig.{
  PidRounding, RoundedPidValue, IntegralType, reset_time, reset_rate, reset_gain, round_value,
  disabled_value,
}
use bhtune.Template.{DcsTemplate}
use bhtune.Tuning.Types.{PidParameters}
use bhtune.Tuning.Convert.{opc_write_values, written_integral, written_derivative}
use bhtune.Tuning.Controller.{
  ControllerPidValues, ControllerPidError, rounded_active_term, integral_target, derivative_target,
  controller_pid_values,
}

module _ {F D : Type 0} (fl : Floats F D) (dc : Decimals F D) where
  -- A positive value whose rounding, the target, is not zero.
  abbrev pub IsActiveTarget : PidRounding → F → RoundedPidValue F → Type 0
  IsActiveTarget policy value target =
      (round_value fl dc policy value ≡ ok target)
      × (fl.le value (fl.literal 0 0) ≡ false)
      × (fl.eq target.value (fl.literal 0 0) ≡ false)

  rounded_active_term_iff :
      (value : F) (term : String) (policy : PidRounding) (target : RoundedPidValue F)
      → (rounded_active_term fl dc value term policy ≡ ok target)
        ↔ IsActiveTarget policy value target
  unfolding rounded_active_term
  rounded_active_term_iff value term policy target = (λ h. ground arith, λ h. ground arith)

  -- The value that switches the integral action off, in the template's representation.
  abbrev pub disabled_integral : IntegralType → F
  disabled_integral reset_time = fl.literal 9999 0
  disabled_integral _ = fl.literal 0 0

  abbrev pub IsIntegralTarget :
      ControllerType → PidRounding → IntegralType → F → RoundedPidValue F → Type 0
  IsIntegralTarget p policy integral_type value target =
      disabled_value fl dc policy (disabled_integral integral_type) ≡ target
  IsIntegralTarget _ policy integral_type value target = IsActiveTarget policy value target

  abbrev pub IsDerivativeTarget : ControllerType → PidRounding → F → RoundedPidValue F → Type 0
  IsDerivativeTarget pid policy value target = IsActiveTarget policy value target
  IsDerivativeTarget _ policy value target = disabled_value fl dc policy (fl.literal 0 0) ≡ target

  ok_iff :
      (a b : RoundedPidValue F)
      → (◌≡◌ {A = Result ControllerPidError (RoundedPidValue F)} (ok a) (ok b)) ↔ (a ≡ b)
  ok_iff a b = (λ h. cc, λ h. ap ok h)

  integral_target_iff :
      (c : ControllerType) (policy : PidRounding) (i : IntegralType) (value : F)
      (target : RoundedPidValue F)
      → (integral_target fl dc c policy (written_integral fl c i value) ≡ ok target)
        ↔ IsIntegralTarget c policy i value target
  unfolding integral_target written_integral
  integral_target_iff p policy reset_time value target = ok_iff _ target
  integral_target_iff p policy reset_rate value target = ok_iff _ target
  integral_target_iff p policy reset_gain value target = ok_iff _ target
  integral_target_iff pi policy i value target = rounded_active_term_iff value _ policy target
  integral_target_iff pid policy i value target = rounded_active_term_iff value _ policy target

  derivative_target_iff :
      (c : ControllerType) (policy : PidRounding) (value : F) (target : RoundedPidValue F)
      → (derivative_target fl dc c policy (written_derivative fl c value) ≡ ok target)
        ↔ IsDerivativeTarget c policy value target
  unfolding derivative_target written_derivative
  derivative_target_iff p policy value target = ok_iff _ target
  derivative_target_iff pi policy value target = ok_iff _ target
  derivative_target_iff pid policy value target = rounded_active_term_iff value _ policy target

  invert_targets :
      (values : PidParameters F) (c : ControllerType) (t : DcsTemplate) (r : ControllerPidValues F)
      → controller_pid_values fl dc values c t ≡ ok r
      → let policy = t.pid_rounding in
        (values.response_level ≡ r.response_level)
        × (rounded_active_term fl dc values.proportional "proportional" policy ≡ ok r.proportional)
        × (integral_target fl dc c policy (written_integral fl c t.integral_type values.integral)
            ≡ ok r.integral)
        × (derivative_target fl dc c policy (written_derivative fl c values.derivative)
            ≡ ok r.derivative)
  unfolding controller_pid_values opc_write_values
  invert_targets values c t r h = ground arith

  -- `controller_pid_values` succeeds with some targets exactly when the proportional target, and the
  -- integral's and the derivative's if the controller type has the term, is the non-zero rounding of the
  -- positive calculated value; the target of a term that the type lacks is the unrounded value that
  -- switches it off, whatever was calculated.
  pub controller_pid_values_iff :
      (values : PidParameters F) (c : ControllerType) (t : DcsTemplate) (r : ControllerPidValues F)
      → (controller_pid_values fl dc values c t ≡ ok r) ↔ (
          (values.response_level ≡ r.response_level)
          × IsActiveTarget t.pid_rounding values.proportional r.proportional
          × IsIntegralTarget c t.pid_rounding t.integral_type values.integral r.integral
          × IsDerivativeTarget c t.pid_rounding values.derivative r.derivative)
  unfolding controller_pid_values opc_write_values
  controller_pid_values_iff values c t r =
      let (a, a') =
        rounded_active_term_iff values.proportional "proportional" t.pid_rounding r.proportional in
      let (b, b') =
        integral_target_iff c t.pid_rounding t.integral_type values.integral r.integral in
      let (d, d') = derivative_target_iff c t.pid_rounding values.derivative r.derivative in
      (
        λ h. let (l, x, y, z) = invert_targets values c t r h in (l, a x, b y, d z),
        λ h. ground (arith, a' h.1, b' h.2, d' h.3),
      )
