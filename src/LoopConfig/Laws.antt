-- ===== src/LoopConfig/Laws.antt =====
-- What validation accepts, and what a change of the process type leaves.
use bhtune.Common.{◌+◌, ◌*◌, ◌≤◌, ◌<◌, ◌≡◌, ◌↔◌, ◌⊎◌, true, false, arith}
use bhtune.Common.Word.{i32_bound}
use bhtune.Common.Result.{ok}
use bhtune.Float.{Floats}
use bhtune.Process.{ProcessType, flow, is_allowed_for}
use bhtune.LoopConfig.{
  LoopConfig, validate, with_process_type, relay_amp_percent_min, relay_amp_percent_max,
  mrft_delay_secs_max,
}

module _ {F D : Type 0} (fl : Floats F D) (c : LoopConfig F) where
  -- `validate` accepts a configuration exactly when its amplitude is finite and from the minimum to
  -- the maximum, it counts at least one cycle, and its delay is at most the maximum.
  pub validate_iff : (validate fl c ≡ ok tt) ↔ (
      (fl.is_finite c.relay_amp_percent ≡ true)
      × (fl.le (relay_amp_percent_min fl) c.relay_amp_percent ≡ true)
      × (fl.le c.relay_amp_percent (relay_amp_percent_max fl) ≡ true)
      × (1 ≤ c.num_cycles_count)
      × (c.mrft_delay_secs ≤ mrft_delay_secs_max))
  unfolding validate
  validate_iff = ground arith

-- Any change of the process type gives a controller type that the process allows, a countable number
-- of cycles, and the amplitude, the delay and an allowed controller type as they were; making the
-- same change twice is making it once.
pub with_process_type_lem :
    {F : Type 0} (c : LoopConfig F) (t : ProcessType)
    → let d = with_process_type c t in
      (is_allowed_for d.controller_type t ≡ true)
      × (1 ≤ d.num_cycles_count)
      × (d.num_cycles_skip * 2 + d.num_cycles_count * 2 + 2 < i32_bound)
      × (d.relay_amp_percent ≡ c.relay_amp_percent)
      × (d.mrft_delay_secs ≡ c.mrft_delay_secs)
      × ((d.controller_type ≡ c.controller_type) ⊎ (is_allowed_for c.controller_type t ≡ false))
      × (with_process_type d t ≡ d)
unfolding with_process_type
with_process_type_lem c flow = ground arith
with_process_type_lem c _ = ground arith
