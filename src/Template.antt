-- ===== src/Template.antt =====
-- crates/bhtune-core/src/template.rs: the conventions of one DCS family, their validation, and the
-- catalog parser over a TOML reader, which is not code of this repository.
pub mod Laws
use Prim.Native.String.{String}
use bhtune.Common.{Bool, ◌&&◌, not, List, [], ◌∷◌, Option, none, some}
use bhtune.Common.Text.{Text, Chars, is_empty, trim}
use bhtune.Common.Result.{Result, ok, err, ◌>>=◌, ◌>>◌, fail_if, map_err}
use bhtune.PidConfig.{
  ProportionalType, IntegralType, DerivativeType, TimeUnit, PidRounding, PidRoundingError,
  validate_rounding,
}

pub record DcsTemplate : Type 0 where
  pub name : Text
  pub revert_mode : Bool
  pub proportional_type : ProportionalType
  pub integral_type : IntegralType
  pub integral_unit : TimeUnit
  pub derivative_type : DerivativeType
  pub derivative_unit : TimeUnit
  pub pid_rounding : PidRounding
  pub process_variable_suffix : Text
  pub manipulated_variable_suffix : Text
  pub setpoint_variable_suffix : Text
  pub controller_direction_suffix : Text
  pub controller_mode_suffix : Text
  pub mode_attribute_suffix : Text
  pub upper_pv_range_suffix : Text
  pub lower_pv_range_suffix : Text
  pub upper_mv_range_suffix : Text
  pub lower_mv_range_suffix : Text
  pub proportional_constant_suffix : Text
  pub integral_constant_suffix : Text
  pub derivative_constant_suffix : Text
  pub mode_manual_value : Text
  pub mode_auto_value : Text
  pub mode_attribute_program_value : Option Text
  pub controller_action_direct_value : Text
  pub versions : List Text
  pub description : Option Text
  pub source : Option Text

-- `E` is the error of the TOML reader.
pub data TemplateError (E : Type 0) : Type 0 where
  toml : E → TemplateError E
  empty_name : TemplateError E
  empty_field : Text → String → TemplateError E
  missing_mode_value : Text → String → TemplateError E
  missing_mode_attribute_program_value : Text → TemplateError E
  invalid_pid_rounding : Text → PidRoundingError → TemplateError E

abbrev pub is_none {ℓ} : {A : Type ℓ} → Option A → Bool
is_none none = Bool.true
is_none (some _) = Bool.false

module _ (ch : Chars) {E : Type 0} where
  unfoldable pub validate : DcsTemplate → Result (TemplateError E) (Unit {0})
  unfolding validate_rounding
  validate t = do
    fail_if (is_empty (trim ch.is_whitespace t.name)) empty_name
    fail_if (is_empty t.process_variable_suffix) (empty_field t.name "process_variable_suffix")
    fail_if (is_empty t.manipulated_variable_suffix)
        (empty_field t.name "manipulated_variable_suffix")
    let has_mode = not (is_empty t.controller_mode_suffix)
    fail_if (has_mode && is_empty t.mode_manual_value)
        (missing_mode_value t.name "mode_manual_value")
    fail_if (has_mode && is_empty t.mode_auto_value) (missing_mode_value t.name "mode_auto_value")
    fail_if (not (is_empty t.mode_attribute_suffix) && is_none t.mode_attribute_program_value)
        (missing_mode_attribute_program_value t.name)
    map_err (invalid_pid_rounding t.name) (validate_rounding t.pid_rounding)

  -- The `for` loop of `parse_catalog`: the first template that fails is reported.
  unfoldable pub validate_all : List DcsTemplate → Result (TemplateError E) (Unit {0})
  validate_all [] = ok tt
  validate_all (t ∷ ts) = validate t >> validate_all ts

  -- `from_str` is `toml::from_str` at the catalog's type.
  unfoldable pub parse_catalog :
      (Text → Result E (List DcsTemplate)) → Text → Result (TemplateError E) (List DcsTemplate)
  parse_catalog from_str input = do
    templates ← map_err toml (from_str input)
    validate_all templates
    ok templates
