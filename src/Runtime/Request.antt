-- ===== src/Runtime/Request.antt =====
-- tune/request.rs: the inputs of a tune and the validation that its adapters share. The texts of errors
-- stand as their causes.
use Prim.Native.String.{String}
use bhtune.Common.{ℕ, ltb, Bool, not, List, [], ◌∷◌, Option, none, some}
use bhtune.Common.Text.{Text, Chars}
use bhtune.Common.Result.{Result, ok, ◌>>◌, fail_if, map_err}
use bhtune.Float.{Floats}
use bhtune.Process.{ControllerDirection, ControllerType, ProcessType}
use bhtune.Constants.{ResponseLevel}
use bhtune.Tags
use bhtune.Tags.{TagOverrides, TagOverridesError}
use bhtune.Runtime.Timing.{DriverKind, simulator, opcda}

-- The driver of a stored run.
pub data TuneDriver : Type 0 where
  opcda_driver simulator_driver_kind replay_driver_kind : TuneDriver

-- `DriverKind::try_from`: a replay cannot start a new run.
unfoldable pub kind_of : TuneDriver → Option DriverKind
kind_of opcda_driver = some opcda
kind_of simulator_driver_kind = some simulator
kind_of replay_driver_kind = none

-- `V` is the type of the driver: `DriverKind`, and `TuneDriver` in a request over HTTP.
pub record TuneRequest (V F : Type 0) : Type 0 where
  pub tagname : Text
  pub template : Text
  pub process_type : ProcessType
  pub controller_type : ControllerType
  pub relay_amp : F
  pub cycles_skip : Option ℕ
  pub cycles_count : Option ℕ
  pub noise_protection_secs : Option ℕ
  pub driver : V
  pub bridge_host : Option Text
  pub server : Option Text
  pub sim_gain : F
  pub sim_tau : F
  pub sim_dead_time : F
  pub sim_noise : F
  pub sim_seed : ℕ
  pub sim_initial_pv : F
  pub sim_initial_mv : F
  pub pv_range_high : Option F
  pub pv_range_low : Option F
  pub mv_range_high : Option F
  pub mv_range_low : Option F
  pub direction : Option ControllerDirection
  pub tag_overrides : Option TagOverrides
  pub notes : Option Text
  pub yes : Bool
  pub write_pid : Option ResponseLevel

pub data RequestError : Type 0 where
  not_finite not_positive : String → RequestError
  bad_overrides : TagOverridesError → RequestError
  unsupported_driver : RequestError

unfoldable pub validate_positive_u32 : String → ℕ → Result RequestError (Unit {0})
validate_positive_u32 field value = fail_if (not (ltb 0 value)) (not_positive field)

abbrev positive_if_given : String → Option ℕ → Result RequestError (Unit {0})
positive_if_given field none = ok tt
positive_if_given field (some n) = validate_positive_u32 field n

abbrev overrides_if_given : Chars → Option TagOverrides → Result RequestError (Unit {0})
overrides_if_given ch none = ok tt
overrides_if_given ch (some o) = map_err bad_overrides (Tags.validate ch o)

module _ {F D : Type 0} (fl : Floats F D) where
  unfoldable pub validate_finite_f32 : String → F → Result RequestError (Unit {0})
  validate_finite_f32 field value = fail_if (not (fl.is_finite value)) (not_finite field)

  -- The loop over the required numbers, and that over the optional ones.
  unfoldable pub all_finite : List (String × F) → Result RequestError (Unit {0})
  unfolding validate_finite_f32
  all_finite [] = ok tt
  all_finite ((field, value) ∷ rest) = validate_finite_f32 field value >> all_finite rest

  unfoldable pub all_given_finite : List (String × Option F) → Result RequestError (Unit {0})
  unfolding validate_finite_f32
  all_given_finite [] = ok tt
  all_given_finite ((field, none) ∷ rest) = all_given_finite rest
  all_given_finite ((field, some value) ∷ rest) =
      validate_finite_f32 field value >> all_given_finite rest

  -- `ValidatedTuneRequest::try_from`.
  unfoldable pub validated :
      {V : Type 0} → Chars → TuneRequest V F → Result RequestError (TuneRequest V F)
  unfolding all_finite all_given_finite validate_positive_u32 Tags.validate
  validated ch r = do
    all_finite (
        ("relay_amp", r.relay_amp)
        ∷ ("sim_gain", r.sim_gain)
        ∷ ("sim_tau", r.sim_tau)
        ∷ ("sim_dead_time", r.sim_dead_time)
        ∷ ("sim_noise", r.sim_noise)
        ∷ ("sim_initial_pv", r.sim_initial_pv)
        ∷ ("sim_initial_mv", r.sim_initial_mv)
        ∷ [])
    all_given_finite (
        ("pv_range_high", r.pv_range_high)
        ∷ ("pv_range_low", r.pv_range_low)
        ∷ ("mv_range_high", r.mv_range_high)
        ∷ ("mv_range_low", r.mv_range_low)
        ∷ [])
    positive_if_given "cycles count" r.cycles_count
    overrides_if_given ch r.tag_overrides
    ok r
