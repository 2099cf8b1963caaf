-- ===== src/Tests/Demo.antt =====
-- The theorems on requests, at a request for a demo and the same request for a run on OPC DA.
use bhtune.Common.{◌≡◌, refl, false, List, [], ◌∷◌, none, some}
use bhtune.Common.Int.{ℤ, pos, ◌-ℤ◌, ◌*ℤ◌}
use bhtune.Common.Text.{Text, text_eq}
use bhtune.Common.Result.{ok}
use bhtune.Float.{fixed}
use bhtune.Process.{ProcessType, pi, reverse, is_allowed_for}
use bhtune.LoopConfig
use bhtune.LoopConfig.{LoopConfig}
use bhtune.Tags
use bhtune.Tags.{LoopTags, value}
use bhtune.Runtime.Timing.{DriverKind, opcda, simulator}
use bhtune.Runtime.Request.{
  TuneDriver, simulator_driver_kind, TuneRequest, kind_of, validated, all_finite, all_given_finite,
  validate_finite_f32, validate_positive_u32,
}
use bhtune.Runtime.Setup.{
  EffectiveTiming, requested_config, build_loop_config_with_timing, build_loop_tags, build_tags_for,
  fixed_tags,
}
use bhtune.Runtime.Setup.Fixed.{AllFixed, build_loop_tags-AllFixed}
use bhtune.Server.Demo.{
  demo_tag_name, any_name, with_kind, validate_demo_identity, into_validated_tune_request,
  validate_demo_scalar_ranges, validate_demo_gain, validate_demo_discrete_fields,
  validate_range_endpoint, validate_range_span, validate_initial_value,
  validate_demo_process_ranges, validate_demo_request,
}
use bhtune.Server.Demo.Accepted.{IsDemoSized, validate_demo_request-IsDemoSized}
use bhtune.Tests.Samples.{ascii, template, override_pv}

abbrev request : TuneRequest TuneDriver ℤ
request = record {
  tagname = demo_tag_name;
  template = b'T' ∷ [];
  process_type = ProcessType.flow;
  controller_type = pi;
  relay_amp = pos 10000;
  cycles_skip = some 1;
  cycles_count = some 2;
  noise_protection_secs = some 0;
  driver = simulator_driver_kind;
  bridge_host = none;
  server = none;
  sim_gain = pos 1000;
  sim_tau = pos 500;
  sim_dead_time = pos 1000;
  sim_noise = pos 0;
  sim_seed = 7;
  sim_initial_pv = pos 50000;
  sim_initial_mv = pos 50000;
  pv_range_high = some (pos 100000);
  pv_range_low = some (pos 0);
  mv_range_high = some (pos 100000);
  mv_range_low = some (pos 0);
  direction = some reverse;
  tag_overrides = none;
  notes = none;
  yes = false;
  write_pid = none;
}

abbrev catalog : List Text
catalog = (b'T' ∷ []) ∷ []

abbrev timing : EffectiveTiming
timing = record {
  mrft_delay_secs = 0;
  poll_interval_ms = 200;
  timeout_secs = 30;
  op_timeout_secs = 30;
  restore_timeout_secs = 30;
}

accepted : validate_demo_request fixed ascii catalog request ≡ ok tt
unfolding validate_demo_request validate_demo_identity any_name text_eq is_allowed_for
    into_validated_tune_request kind_of validated all_finite all_given_finite validate_finite_f32
    validate_positive_u32 validate_demo_scalar_ranges validate_demo_gain
    validate_demo_discrete_fields validate_demo_process_ranges validate_range_endpoint
    validate_range_span validate_initial_value fixed ◌-ℤ◌ ◌*ℤ◌
accepted = refl

abbrev demo_config : LoopConfig ℤ
demo_config = requested_config fixed (with_kind request simulator) timing

built : build_loop_config_with_timing fixed (with_kind request simulator) timing ≡ ok demo_config
unfolding build_loop_config_with_timing LoopConfig.validate is_allowed_for fixed
built = refl

validate_demo_request-IsDemoSized_example : IsDemoSized fixed demo_config
validate_demo_request-IsDemoSized_example =
    validate_demo_request-IsDemoSized fixed ascii catalog request simulator timing accepted built

-- On OPC DA, with an override of the PV tag.
abbrev opc_request : TuneRequest DriverKind ℤ
opc_request = record (with_kind request opcda) { tag_overrides = some (override_pv (b'F' ∷ [])) }

abbrev opc_tags : LoopTags ℤ
opc_tags = fixed_tags ascii opc_request (
    Tags.apply_to ascii (override_pv (b'F' ∷ []))
      (Tags.derive_from_pv_tag ascii demo_tag_name template))

built_tags : build_loop_tags ascii opc_request template ≡ ok opc_tags
unfolding build_loop_tags build_tags_for
built_tags = refl

build_loop_tags-AllFixed_example : AllFixed opc_request opc_tags
build_loop_tags-AllFixed_example = build_loop_tags-AllFixed ascii opc_request template built_tags
