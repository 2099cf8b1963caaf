-- ===== src/LoopConfig.antt =====
-- crates/bhtune-core/src/loop_config.rs: the configuration of one run and its validation.
pub mod Laws
use bhtune.Common.{ℕ, Bool, ◌&&◌, ◌||◌, not, leb, ltb, if◌then◌else◌}
use bhtune.Common.Result.{Result, ok, err, ◌>>=◌, ◌>>◌, fail_if}
use bhtune.Float.{Floats}
use bhtune.Process.{
  ProcessType, ControllerType, pi, is_allowed_for, default_cycles_skip, default_cycles_test,
  default_noise_protection_secs,
}

pub record LoopConfig (F : Type 0) : Type 0 where
  pub process_type : ProcessType
  pub controller_type : ControllerType
  pub relay_amp_percent : F
  pub num_cycles_skip : ℕ
  pub num_cycles_count : ℕ
  pub noise_protection_secs : ℕ
  pub mrft_delay_secs : ℕ

pub data LoopConfigError (F : Type 0) : Type 0 where
  relay_amp_out_of_range : F → LoopConfigError F
  cycles_count_must_be_at_least_one : LoopConfigError F
  mrft_delay_out_of_range : ℕ → LoopConfigError F

abbrev pub mrft_delay_secs_max : ℕ
mrft_delay_secs_max = 3600

unfoldable pub with_process_type : {F : Type 0} → LoopConfig F → ProcessType → LoopConfig F
unfolding default_cycles_skip default_cycles_test default_noise_protection_secs is_allowed_for
with_process_type c t = record c {
  process_type = t;
  num_cycles_skip = default_cycles_skip t;
  num_cycles_count = default_cycles_test t;
  noise_protection_secs = default_noise_protection_secs t;
  controller_type = if is_allowed_for c.controller_type t then c.controller_type else pi;
}

module _ {F D : Type 0} (fl : Floats F D) where
  abbrev pub relay_amp_percent_min : F
  relay_amp_percent_min = fl.literal 1 1

  abbrev pub relay_amp_percent_max : F
  relay_amp_percent_max = fl.literal 50 0

  unfoldable pub validate : LoopConfig F → Result (LoopConfigError F) (Unit {0})
  validate c = do
    let amp = c.relay_amp_percent
    fail_if
        (not (fl.is_finite amp)
          || not (fl.le relay_amp_percent_min amp && fl.le amp relay_amp_percent_max))
        (relay_amp_out_of_range amp)
    fail_if (ltb c.num_cycles_count 1) cycles_count_must_be_at_least_one
    fail_if (ltb mrft_delay_secs_max c.mrft_delay_secs) (mrft_delay_out_of_range c.mrft_delay_secs)
