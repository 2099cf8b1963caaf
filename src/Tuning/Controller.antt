-- ===== src/Tuning/Controller.antt =====
-- `controller_pid_values`: the rounded targets of the active terms, and the disabled ones as they are.
use Prim.Native.String.{String}
use bhtune.Common.Result.{Result, ok, ◌>>=◌, ◌>>◌, fail_if, map_err}
use bhtune.Float.{Floats, Decimals}
use bhtune.Process.{ControllerType, p, pid}
use bhtune.Constants.{ResponseLevel}
use bhtune.PidConfig.{
  PidRounding, RoundedPidValue, PidRoundingError, non_positive, rounded_to_zero, round_value,
  disabled_value,
}
use bhtune.Template.{DcsTemplate}
use bhtune.Tuning.Types.{PidParameters}
use bhtune.Tuning.Convert.{opc_write_values}

pub record ControllerPidValues (F : Type 0) : Type 0 where
  pub response_level : ResponseLevel
  pub proportional : RoundedPidValue F
  pub integral : RoundedPidValue F
  pub derivative : RoundedPidValue F

pub record ControllerPidError : Type 0 where
  pub term : String
  pub reason : PidRoundingError

module _ {F D : Type 0} (fl : Floats F D) (dc : Decimals F D) where
  unfoldable pub rounded_active_term :
      F → String → PidRounding → Result ControllerPidError (RoundedPidValue F)
  rounded_active_term value term policy = do
    rounded ←
        map_err (λ reason. record { term = term; reason = reason }) (round_value fl dc policy value)
    fail_if (fl.le value (fl.literal 0 0)) (record { term = term; reason = non_positive })
    fail_if (fl.eq rounded.value (fl.literal 0 0))
        (record { term = term; reason = rounded_to_zero })
    ok rounded

  -- The integral's and the derivative's targets: rounded if the controller type uses the term.
  unfoldable pub integral_target :
      ControllerType → PidRounding → F → Result ControllerPidError (RoundedPidValue F)
  integral_target p policy raw = ok (disabled_value fl dc policy raw)
  integral_target _ policy raw = rounded_active_term raw "integral" policy

  unfoldable pub derivative_target :
      ControllerType → PidRounding → F → Result ControllerPidError (RoundedPidValue F)
  derivative_target pid policy raw = rounded_active_term raw "derivative" policy
  derivative_target _ policy raw = ok (disabled_value fl dc policy raw)

  unfoldable pub controller_pid_values :
      PidParameters F
      → ControllerType
      → DcsTemplate
      → Result ControllerPidError (ControllerPidValues F)
  controller_pid_values values controller_type template = do
    let raw = opc_write_values fl values controller_type template.integral_type
    let policy = template.pid_rounding
    proportional ← rounded_active_term raw.proportional "proportional" policy
    integral ← integral_target controller_type policy raw.integral
    derivative ← derivative_target controller_type policy raw.derivative
    ok (record {
      response_level = raw.response_level;
      proportional = proportional;
      integral = integral;
      derivative = derivative;
    })
