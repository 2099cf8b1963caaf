-- ===== src/Server/Demo.antt =====
-- routes/demo/validation.rs: what a public demo accepts. `catalog` is the list of the names of the
-- built-in templates; the limits are those of config/demo.rs. The texts of errors stand as their causes.
pub mod Accepted
use Prim.Native.String.{String}
use bhtune.Common.{
  ℕ, ltb, leb, ◌^◌, ◌-◌, Bool, true, false, ◌&&◌, ◌||◌, not, List, [], ◌∷◌, Option, none, some,
  if◌then◌else◌,
}
use bhtune.Common.Text.{Text, Chars, text_eq}
use bhtune.Common.Result.{Result, ok, err, ◌>>=◌, ◌>>◌, fail_if, map_err}
use bhtune.Float.{Floats}
use bhtune.Process.{is_allowed_for}
use bhtune.Runtime.Timing.{DriverKind}
use bhtune.Runtime.Request.{
  TuneDriver, simulator_driver_kind, opcda_driver, replay_driver_kind, TuneRequest, RequestError,
  unsupported_driver, kind_of, validated,
}

pub data DemoError : Type 0 where
  only_simulator only_built_in fixed_tag_name controller_not_allowed seed_too_large : DemoError
  out_of_limits missing bad_span : String → DemoError
  bad_request : RequestError → DemoError

-- "Simulator demo".
abbrev pub demo_tag_name : Text
demo_tag_name =
    b'S' ∷ b'i' ∷ b'm' ∷ b'u' ∷ b'l' ∷ b'a' ∷ b't' ∷ b'o' ∷ b'r' ∷ b' ' ∷ b'd' ∷ b'e' ∷ b'm' ∷ b'o'
    ∷ []

abbrev pub demo_sim_seed_max : ℕ
demo_sim_seed_max = 2 ^ 31 - 1

abbrev pub demo_cycles_skip_max : ℕ
demo_cycles_skip_max = 2

abbrev pub demo_cycles_count_min : ℕ
demo_cycles_count_min = 1

abbrev pub demo_cycles_count_max : ℕ
demo_cycles_count_max = 3

abbrev pub demo_noise_protection_secs_max : ℕ
demo_noise_protection_secs_max = 3

-- `(low..=high).contains`, and the same of a value that has to be given.
abbrev pub between : ℕ → ℕ → ℕ → Bool
between low high n = leb low n && leb n high

abbrev pub given_between : ℕ → ℕ → Option ℕ → Bool
given_between low high none = false
given_between low high (some n) = between low high n

abbrev is_simulator : TuneDriver → Bool
is_simulator simulator_driver_kind = true
is_simulator opcda_driver = false
is_simulator replay_driver_kind = false

unfoldable pub any_name : Text → List Text → Bool
any_name name [] = false
any_name name (n ∷ ns) = text_eq n name || any_name name ns

module _ {F : Type 0} where
  unfoldable pub validate_demo_identity :
      List Text → TuneRequest TuneDriver F → Result DemoError (Unit {0})
  unfolding any_name is_allowed_for
  validate_demo_identity catalog r = do
    fail_if (not (is_simulator r.driver)) only_simulator
    fail_if (not (any_name r.template catalog)) only_built_in
    fail_if (not (text_eq r.tagname demo_tag_name)) fixed_tag_name
    fail_if (not (is_allowed_for r.controller_type r.process_type)) controller_not_allowed

  unfoldable pub validate_demo_discrete_fields :
      TuneRequest TuneDriver F → Result DemoError (Unit {0})
  validate_demo_discrete_fields r = do
    fail_if (ltb demo_sim_seed_max r.sim_seed) seed_too_large
    fail_if (not (given_between 0 demo_cycles_skip_max r.cycles_skip)) (out_of_limits "cycles_skip")
    fail_if (not (given_between demo_cycles_count_min demo_cycles_count_max r.cycles_count))
        (out_of_limits "cycles_count")
    fail_if (not (given_between 0 demo_noise_protection_secs_max r.noise_protection_secs))
        (out_of_limits "noise_protection_secs")

  abbrev pub with_kind : TuneRequest TuneDriver F → DriverKind → TuneRequest DriverKind F
  with_kind r kind = record {
    tagname = r.tagname;
    template = r.template;
    process_type = r.process_type;
    controller_type = r.controller_type;
    relay_amp = r.relay_amp;
    cycles_skip = r.cycles_skip;
    cycles_count = r.cycles_count;
    noise_protection_secs = r.noise_protection_secs;
    driver = kind;
    bridge_host = r.bridge_host;
    server = r.server;
    sim_gain = r.sim_gain;
    sim_tau = r.sim_tau;
    sim_dead_time = r.sim_dead_time;
    sim_noise = r.sim_noise;
    sim_seed = r.sim_seed;
    sim_initial_pv = r.sim_initial_pv;
    sim_initial_mv = r.sim_initial_mv;
    pv_range_high = r.pv_range_high;
    pv_range_low = r.pv_range_low;
    mv_range_high = r.mv_range_high;
    mv_range_low = r.mv_range_low;
    direction = r.direction;
    tag_overrides = r.tag_overrides;
    notes = r.notes;
    yes = r.yes;
    write_pid = r.write_pid;
  }

module _ {F D : Type 0} (fl : Floats F D) where
  abbrev pub within : F → F → F → Bool
  within low high v = fl.is_finite v && (fl.le low v && fl.le v high)

  abbrev pub check_within : String → F → F → F → Result DemoError (Unit {0})
  check_within field low high v = fail_if (not (within low high v)) (out_of_limits field)

  unfoldable pub validate_demo_scalar_ranges :
      TuneRequest TuneDriver F → Result DemoError (Unit {0})
  validate_demo_scalar_ranges r = do
    check_within "relay_amp" (fl.literal 1 0) (fl.literal 20 0) r.relay_amp
    check_within "sim_tau" (fl.literal 5 2) (fl.literal 5 0) r.sim_tau
    check_within "sim_dead_time" (fl.literal 0 0) (fl.literal 2 0) r.sim_dead_time

  unfoldable pub validate_demo_gain : TuneRequest TuneDriver F → Result DemoError (Unit {0})
  validate_demo_gain r = check_within "sim_gain" (fl.literal 1 1) (fl.literal 5 0) r.sim_gain

  -- The lower limit is the literal -1000.0, which is this difference.
  unfoldable pub validate_range_endpoint : String → Option F → Result DemoError F
  validate_range_endpoint field none = err (missing field)
  validate_range_endpoint field (some v) = do
    check_within field (fl.sub (fl.literal 0 0) (fl.literal 1000 0)) (fl.literal 1000 0) v
    ok v

  unfoldable pub validate_range_span : String → F → F → Result DemoError F
  validate_range_span label low high =
      let span = fl.sub high low in
      if fl.le (fl.literal 1 0) span && fl.le span (fl.literal 1000 0)
      then ok span
      else err (bad_span label)

  unfoldable pub validate_initial_value : String → F → F → F → Result DemoError (Unit {0})
  validate_initial_value field v low high = check_within field low high v

  unfoldable pub validate_demo_process_ranges :
      TuneRequest TuneDriver F → Result DemoError (Unit {0})
  unfolding validate_range_endpoint validate_range_span validate_initial_value
  validate_demo_process_ranges r = do
    pv_low ← validate_range_endpoint "pv_range_low" r.pv_range_low
    pv_high ← validate_range_endpoint "pv_range_high" r.pv_range_high
    mv_low ← validate_range_endpoint "mv_range_low" r.mv_range_low
    mv_high ← validate_range_endpoint "mv_range_high" r.mv_range_high
    pv_span ← validate_range_span "PV" pv_low pv_high
    mv_span ← validate_range_span "MV" mv_low mv_high
    validate_initial_value "sim_initial_pv" r.sim_initial_pv pv_low pv_high
    validate_initial_value "sim_initial_mv" r.sim_initial_mv mv_low mv_high
    check_within "sim_noise" (fl.literal 0 0) (fl.mul pv_span (fl.literal 5 2)) r.sim_noise

  -- `StartRunRequest::into_validated_tune_request`.
  unfoldable pub into_validated_tune_request :
      Chars → TuneRequest TuneDriver F → Result RequestError (TuneRequest DriverKind F)
  unfolding kind_of validated
  into_validated_tune_request ch r = elim (kind_of r.driver) [
    | none ↦ err unsupported_driver
    | some kind ↦ validated fl ch (with_kind r kind)
  ]

  unfoldable pub validate_demo_request :
      Chars → List Text → TuneRequest TuneDriver F → Result DemoError (Unit {0})
  unfolding validate_demo_identity into_validated_tune_request validate_demo_scalar_ranges
      validate_demo_gain validate_demo_discrete_fields validate_demo_process_ranges
  validate_demo_request ch catalog r = do
    validate_demo_identity catalog r
    request ← map_err bad_request (into_validated_tune_request ch r)
    validate_demo_scalar_ranges r
    validate_demo_gain r
    validate_demo_discrete_fields r
    validate_demo_process_ranges r
