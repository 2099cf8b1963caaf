-- ===== src/Runtime/Setup.antt =====
-- tune/config.rs: the configuration and the tags that a request and the timing of the installation give.
pub mod Fixed
use Prim.Native.String.{String}
use bhtune.Common.{
  ℕ, ltb, ◌==◌, Bool, true, false, ◌&&◌, not, Option, none, some, [], ◌∷◌, if◌then◌else◌,
}
use bhtune.Common.Text.{Text, Chars}
use bhtune.Common.Result.{Result, ok, err, ◌>>=◌, ◌>>◌, fail_if, map_err}
use bhtune.Float.{Floats}
use bhtune.Process.{
  ControllerDirection, is_allowed_for, default_cycles_skip, default_cycles_test,
  default_noise_protection_secs,
}
use bhtune.LoopConfig
use bhtune.LoopConfig.{LoopConfig, LoopConfigError}
use bhtune.Template.{DcsTemplate}
use bhtune.Tags.{TagOverrides, TagOrValue, value, LoopTags, derive_from_pv_tag, apply_to}
use bhtune.Runtime.Timing.{DriverKind, simulator, opcda}
use bhtune.Runtime.Request.{TuneRequest}

pub record EffectiveTiming : Type 0 where
  pub mrft_delay_secs : ℕ
  pub poll_interval_ms : ℕ
  pub timeout_secs : ℕ
  pub op_timeout_secs : ℕ
  pub restore_timeout_secs : ℕ

pub data SetupError (F : Type 0) : Type 0 where
  restore_timeout_zero restore_timeout_short controller_not_valid : SetupError F
  bad_config : LoopConfigError F → SetupError F
  required : String → SetupError F

abbrev pub min_opc_restore_timeout_secs : ℕ
min_opc_restore_timeout_secs = 4

abbrev on_opc : DriverKind → Bool
on_opc opcda = true
on_opc simulator = false

unfoldable pub validate_restore_timeout_secs :
    {F : Type 0} → DriverKind → ℕ → Result (SetupError F) (Unit {0})
validate_restore_timeout_secs driver secs = do
  fail_if (secs == 0) restore_timeout_zero
  fail_if (on_opc driver && ltb secs min_opc_restore_timeout_secs) restore_timeout_short

abbrev pub unwrap_or : {A : Type 0} → Option A → A → A
unwrap_or none a = a
unwrap_or (some x) a = x

abbrev pub require : {F A : Type 0} → Option A → String → Result (SetupError F) A
require none flag = err (required flag)
require (some a) flag = ok a

-- `if let Some(v) = requested { target = TagOrValue::Value(v) }`.
abbrev pub fixed_if_given : {A : Type 0} → Option A → TagOrValue A → TagOrValue A
fixed_if_given none target = target
fixed_if_given (some v) target = value v

abbrev overridden : {F : Type 0} → Chars → Option TagOverrides → LoopTags F → LoopTags F
overridden ch none tags = tags
overridden ch (some o) tags = apply_to ch o tags

-- "Sim.PV" and "Sim.MV".
abbrev pub simulator_pv_tag : Text
simulator_pv_tag = b'S' ∷ b'i' ∷ b'm' ∷ b'.' ∷ b'P' ∷ b'V' ∷ []

abbrev pub simulator_mv_tag : Text
simulator_mv_tag = b'S' ∷ b'i' ∷ b'm' ∷ b'.' ∷ b'M' ∷ b'V' ∷ []

module _ {F D : Type 0} (fl : Floats F D) where
  -- The configuration before its validation.
  abbrev pub requested_config : {V : Type 0} → TuneRequest V F → EffectiveTiming → LoopConfig F
  requested_config args timing = record {
    process_type = args.process_type;
    controller_type = args.controller_type;
    relay_amp_percent = args.relay_amp;
    num_cycles_skip = unwrap_or args.cycles_skip (default_cycles_skip args.process_type);
    num_cycles_count = unwrap_or args.cycles_count (default_cycles_test args.process_type);
    noise_protection_secs =
        unwrap_or args.noise_protection_secs (default_noise_protection_secs args.process_type);
    mrft_delay_secs = timing.mrft_delay_secs;
  }

  unfoldable pub build_loop_config_with_timing :
      {V : Type 0} → TuneRequest V F → EffectiveTiming → Result (SetupError F) (LoopConfig F)
  unfolding LoopConfig.validate default_cycles_skip default_cycles_test
      default_noise_protection_secs is_allowed_for
  build_loop_config_with_timing args timing = do
    fail_if (not (is_allowed_for args.controller_type args.process_type)) controller_not_valid
    map_err bad_config (LoopConfig.validate fl (requested_config args timing))
    ok (requested_config args timing)

module _ {F : Type 0} (ch : Chars) where
  -- Explicit fixed values come last, so that they win over an override.
  abbrev pub fixed_tags : TuneRequest DriverKind F → LoopTags F → LoopTags F
  fixed_tags args tags = record tags {
    upper_pv_range = fixed_if_given args.pv_range_high tags.upper_pv_range;
    lower_pv_range = fixed_if_given args.pv_range_low tags.lower_pv_range;
    upper_mv_range = fixed_if_given args.mv_range_high tags.upper_mv_range;
    lower_mv_range = fixed_if_given args.mv_range_low tags.lower_mv_range;
    controller_direction = fixed_if_given args.direction tags.controller_direction;
  }

  abbrev pub simulator_tags : F → F → F → F → ControllerDirection → LoopTags F
  simulator_tags pv_high pv_low mv_high mv_low direction = record {
    process_variable = simulator_pv_tag;
    manipulated_variable = simulator_mv_tag;
    setpoint_variable = none;
    controller_mode = none;
    mode_attribute = none;
    upper_pv_range = value pv_high;
    lower_pv_range = value pv_low;
    upper_mv_range = value mv_high;
    lower_mv_range = value mv_low;
    controller_direction = value direction;
    proportional_constant = none;
    integral_constant = none;
    derivative_constant = none;
  }

  -- A simulated run has to be given all five.
  abbrev pub required_tags :
      Option F
      → Option F
      → Option F
      → Option F
      → Option ControllerDirection
      → Result (SetupError F) (LoopTags F)
  required_tags pv_high? pv_low? mv_high? mv_low? direction? = do
    pv_high ← require pv_high? "--pv-range-high"
    pv_low ← require pv_low? "--pv-range-low"
    mv_high ← require mv_high? "--mv-range-high"
    mv_low ← require mv_low? "--mv-range-low"
    direction ← require direction? "--direction"
    ok (simulator_tags pv_high pv_low mv_high mv_low direction)

  -- The match on the request's driver.
  unfoldable pub build_tags_for :
      DriverKind → TuneRequest DriverKind F → DcsTemplate → Result (SetupError F) (LoopTags F)
  unfolding derive_from_pv_tag apply_to
  build_tags_for opcda args template = ok (
      fixed_tags args
        (overridden ch args.tag_overrides (derive_from_pv_tag ch args.tagname template)))
  build_tags_for simulator args template =
      required_tags args.pv_range_high args.pv_range_low args.mv_range_high args.mv_range_low
        args.direction

  unfoldable pub build_loop_tags :
      TuneRequest DriverKind F → DcsTemplate → Result (SetupError F) (LoopTags F)
  unfolding build_tags_for
  build_loop_tags args template = build_tags_for args.driver args template
