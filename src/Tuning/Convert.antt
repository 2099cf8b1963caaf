-- ===== src/Tuning/Convert.antt =====
-- From an oscillation to Kp, Ti and Td, and to the parameters in the units of a template.
use bhtune.Float.{Floats}
use bhtune.Process.{ControllerType, p, pid}
use bhtune.Constants.{ResponseLevel, lookup}
use bhtune.LoopConfig.{LoopConfig}
use bhtune.PidConfig.{
  ProportionalType, gain, band, IntegralType, reset_time, reset_rate, reset_gain, DerivativeType,
  derivative_time, derivative_gain, TimeUnit, seconds, minutes,
}
use bhtune.Template.{DcsTemplate}
use bhtune.Tuning.Types.{Oscillation, TuningResult, PidParameters, OpcWriteValues}

module _ {F D : Type 0} (fl : Floats F D) where
  open fl use {mul, div, literal}

  unfoldable pub calculate_tuning_result :
      Oscillation F → LoopConfig F → ResponseLevel → TuningResult F
  unfolding lookup
  calculate_tuning_result o config level =
      let tc = lookup fl config.process_type config.controller_type level in
      let kp_denom = fl.narrow (fl.mul_wide fl.pi_wide (fl.widen o.pv_amp_percent)) in
      record {
        response_level = level;
        kp = div (mul (mul tc.c1 (literal 4 0)) config.relay_amp_percent) kp_denom;
        ti_minutes = div (mul (mul tc.c2 (literal 2 0)) fl.pi) o.frequency;
        td_minutes = div (mul (mul tc.c3 (literal 2 0)) fl.pi) o.frequency;
      }

  unfoldable pub in_template_unit : TimeUnit → F → F
  in_template_unit seconds v = mul v (literal 60 0)
  in_template_unit minutes v = v

  unfoldable pub proportional_of : ProportionalType → F → F
  proportional_of gain kp = kp
  proportional_of band kp = div (literal 100 0) kp

  unfoldable pub integral_of : IntegralType → F → F → F
  integral_of reset_time kp ti = ti
  integral_of reset_rate kp ti = div (literal 1 0) ti
  integral_of reset_gain kp ti = div kp ti

  unfoldable pub derivative_of : DerivativeType → F → F → F
  derivative_of derivative_time kp td = td
  derivative_of derivative_gain kp td = mul kp td

  unfoldable pub calculate_pid_parameters : TuningResult F → DcsTemplate → PidParameters F
  calculate_pid_parameters r t = record {
    response_level = r.response_level;
    proportional = proportional_of t.proportional_type r.kp;
    integral = integral_of t.integral_type r.kp (in_template_unit t.integral_unit r.ti_minutes);
    derivative =
        derivative_of t.derivative_type r.kp (in_template_unit t.derivative_unit r.td_minutes);
  }

  -- The integral and the derivative that are written, by the controller type.
  unfoldable pub written_integral : ControllerType → IntegralType → F → F
  written_integral p reset_time integral = literal 9999 0
  written_integral p reset_rate integral = literal 0 0
  written_integral p reset_gain integral = literal 0 0
  written_integral _ _ integral = integral

  unfoldable pub written_derivative : ControllerType → F → F
  written_derivative pid derivative = derivative
  written_derivative _ derivative = literal 0 0

  unfoldable pub opc_write_values :
      PidParameters F → ControllerType → IntegralType → OpcWriteValues F
  opc_write_values v controller_type integral_type = record {
    response_level = v.response_level;
    proportional = v.proportional;
    integral = written_integral controller_type integral_type v.integral;
    derivative = written_derivative controller_type v.derivative;
  }
