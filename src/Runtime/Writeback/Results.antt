-- ===== src/Runtime/Writeback/Results.antt =====
-- tune/writeback.rs: which calculated result may be written, and with which target.
use bhtune.Common.{
  Bool, true, false, ◌&&◌, not, ◌==◌, List, [], ◌∷◌, Option, none, some, if◌then◌else◌,
}
use bhtune.Common.Result.{Result, ok, err, ◌>>=◌, ◌>>◌, fail_if, map_err}
use bhtune.Float.{Floats, Decimals}
use bhtune.Process.{ControllerType}
use bhtune.Constants.{ResponseLevel, response_index}
use bhtune.Template.{DcsTemplate}
use bhtune.Tuning.Types.{
  PidParameters, TuningResultStatus, valid, invalid, TuningResultInvalidReason,
}
use bhtune.Tuning.Controller.{ControllerPidValues, ControllerPidError, controller_pid_values}

-- A stored result, as far as it is read.
pub record TuneResultRow (F : Type 0) : Type 0 where
  pub response_level : ResponseLevel
  pub status : TuningResultStatus
  pub invalid_reason : Option TuningResultInvalidReason
  pub proportional : Option F
  pub integral : Option F
  pub derivative : Option F

-- Why a result has no target.
pub data ResultError : Type 0 where
  result_invalid : Option TuningResultInvalidReason → ResultError
  valid_with_reason missing_proportional missing_integral missing_derivative value_not_finite :
      ResultError
  target_unavailable : ControllerPidError → ResultError

pub record PidWritePreview (F : Type 0) : Type 0 where
  pub response_level : ResponseLevel
  pub values : Option (ControllerPidValues F)
  pub unavailable_reason : Option ResultError

abbrev pub is_valid : TuningResultStatus → Bool
is_valid valid = true
is_valid invalid = false

abbrev pub or_err : {A : Type 0} → Option A → ResultError → Result ResultError A
or_err none e = err e
or_err (some a) e = ok a

abbrev pub is_some : {A : Type 0} → Option A → Bool
is_some none = false
is_some (some _) = true

abbrev same_level : ResponseLevel → ResponseLevel → Bool
same_level a b = response_index a == response_index b

-- `Iterator::find` by the level.
unfoldable pub find_level :
    {F : Type 0} → ResponseLevel → List (TuneResultRow F) → Option (TuneResultRow F)
unfolding response_index
find_level level [] = none
find_level level (r ∷ rs) =
    if same_level r.response_level level then some r else find_level level rs

module _ {F D : Type 0} (fl : Floats F D) (dc : Decimals F D) where
  unfoldable pub pid_parameters_for_result : TuneResultRow F → Result ResultError (PidParameters F)
  pid_parameters_for_result result = do
    fail_if (not (is_valid result.status)) (result_invalid result.invalid_reason)
    fail_if (is_some result.invalid_reason) valid_with_reason
    proportional ← or_err result.proportional missing_proportional
    integral ← or_err result.integral missing_integral
    derivative ← or_err result.derivative missing_derivative
    fail_if (not (fl.is_finite proportional && fl.is_finite integral && fl.is_finite derivative))
        value_not_finite
    ok (record {
      response_level = result.response_level;
      proportional = proportional;
      integral = integral;
      derivative = derivative;
    })

  unfoldable pub controller_pid_for_result :
      TuneResultRow F → ControllerType → DcsTemplate → Result ResultError (ControllerPidValues F)
  unfolding pid_parameters_for_result controller_pid_values
  controller_pid_for_result result controller_type template = do
    values ← pid_parameters_for_result result
    map_err target_unavailable (controller_pid_values fl dc values controller_type template)

  abbrev preview_of : ResponseLevel → Result ResultError (ControllerPidValues F) → PidWritePreview F
  preview_of level (ok values) = record {
    response_level = level;
    values = some values;
    unavailable_reason = none;
  }
  preview_of level (err e) = record {
    response_level = level;
    values = none;
    unavailable_reason = some e;
  }

  unfoldable pub pid_write_preview :
      TuneResultRow F → ControllerType → DcsTemplate → PidWritePreview F
  unfolding controller_pid_for_result
  pid_write_preview result controller_type template =
      preview_of result.response_level (controller_pid_for_result result controller_type template)
