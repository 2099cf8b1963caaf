-- ===== src/Mrft/Engine.antt =====
-- The engine's state and its operations, in the order of mrft.rs.
use bhtune.Common.{
  ℕ, ◌+◌, ◌-◌, ◌*◌, Bool, true, false, ◌&&◌, ◌||◌, not, List, [], ◌∷◌, ◌++◌, push, leb, ◌==◌,
  if◌then◌else◌,
}
use bhtune.Common.Int.{ℤ, pos, negsuc, ◌*ℤ◌, trunc_div, eqb_ℤ}
use bhtune.Common.Word.{u32, u32_mod, as_i32}
use bhtune.Float.{Floats}
use bhtune.Process.{ControllerDirection, action_multiplier}
use bhtune.LoopConfig.{LoopConfig}

pub record Tick (F : Type 0) : Type 0 where
  pub time : ℕ
  pub pv : F

pub record Completion (F : Type 0) : Type 0 where
  pub peaks : List F
  pub troughs : List F
  pub switch_times : List ℕ
  pub mv_sign_init : ℤ

pub data Action (F : Type 0) : Type 0 where
  write_mv : F → Action F
  complete : Completion F → Action F

pub record InitialReadings (F : Type 0) : Type 0 where
  pub pv_ini : F
  pub mv_ini : F
  pub mv_range_low : F
  pub mv_range_high : F

pub record MrftState (F : Type 0) : Type 0 where
  pub hysteresis : F
  pub mv_value_current : F
  pub mv_sign_next_step : ℤ
  pub counter_all_switches : ℕ
  pub cycles_completed : ℤ
  pub cycles_remaining : ℤ

pub record MrftEngine (F : Type 0) : Type 0 where
  pub beta : F
  pub action_multiplier : ℤ
  pub relay_amp_raw : F
  pub pv_value_ini : F
  pub mv_value_ini : F
  pub num_switches_skip : ℕ
  pub num_cycles_count : ℕ
  pub noise_protection_secs : ℕ
  pub mv_value_current : F
  pub mv_value_next_step : F
  pub max_pv_cycle : F
  pub min_pv_cycle : F
  pub max_pv_result : F
  pub min_pv_result : F
  pub hysteresis : F
  pub mv_sign_next_step : ℤ
  pub mv_sign_init : ℤ
  pub time_previous_switch : ℕ
  pub counter_all_switches : ℕ
  pub peaks : List F
  pub troughs : List F
  pub switch_times : List ℕ
  pub completed : Bool

-- `Duration::seconds`, in nanoseconds.
abbrev pub seconds : ℕ → ℕ
seconds n = n * 1000000000

-- `MRFTisComplete`: the comparison of the switch counter.
unfoldable pub is_complete : {F : Type 0} → MrftEngine F → Bool
is_complete e =
    leb (u32 (e.num_switches_skip + u32 (e.num_cycles_count * 2))) e.counter_all_switches

-- What `Action::Complete` carries.
abbrev pub completion : {F : Type 0} → MrftEngine F → Completion F
completion e = record {
  peaks = e.peaks;
  troughs = e.troughs;
  switch_times = e.switch_times;
  mv_sign_init = e.mv_sign_init;
}

-- `(counter as i32 - 1) / 2`.
unfoldable pub cycles_completed : {F : Type 0} → MrftEngine F → ℤ
unfolding as_i32
cycles_completed e = trunc_div (as_i32 (e.counter_all_switches + u32_mod - 1)) 2

-- `(skip as i32 + count as i32 * 2 - counter as i32 + 1) / 2`.
unfoldable pub cycles_remaining : {F : Type 0} → MrftEngine F → ℤ
unfolding as_i32
cycles_remaining e =
    trunc_div
      (as_i32 (e.num_switches_skip + e.num_cycles_count * 2 + u32_mod - e.counter_all_switches + 1))
      2

module _ {F D : Type 0} (fl : Floats F D) where
  open fl use {add, sub, mul, div, max, min, le, lt, literal, of_int}
  open fl use {widen, sub_wide, abs_wide, le_wide, literal_wide}

  unfoldable pub clamp_relay_amplitude : F → F → F → F → F
  clamp_relay_amplitude relay_amp_percent mv_ini mv_range_low mv_range_high =
      let relay_amp_raw =
        mul (div relay_amp_percent (literal 100 0)) (sub mv_range_high mv_range_low) in
      if lt mv_range_high (add mv_ini relay_amp_raw)
      then sub mv_range_high mv_ini
      else if lt (sub mv_ini relay_amp_raw) mv_range_low
      then sub mv_ini mv_range_low
      else relay_amp_raw

  unfoldable pub new : LoopConfig F → ControllerDirection → F → InitialReadings F → ℕ → MrftEngine F
  unfolding clamp_relay_amplitude action_multiplier
  new config direction beta initial start_time = record {
    beta = beta;
    action_multiplier = action_multiplier direction;
    relay_amp_raw =
        clamp_relay_amplitude config.relay_amp_percent initial.mv_ini initial.mv_range_low
          initial.mv_range_high;
    pv_value_ini = initial.pv_ini;
    mv_value_ini = initial.mv_ini;
    num_switches_skip = u32 (u32 (config.num_cycles_skip * 2) + 1);
    num_cycles_count = config.num_cycles_count;
    noise_protection_secs = config.noise_protection_secs;
    mv_value_current = initial.mv_ini;
    mv_value_next_step = initial.mv_ini;
    max_pv_cycle = initial.pv_ini;
    min_pv_cycle = initial.pv_ini;
    max_pv_result = initial.pv_ini;
    min_pv_result = initial.pv_ini;
    hysteresis = literal 0 0;
    mv_sign_next_step = pos 1;
    mv_sign_init = pos 0;
    time_previous_switch = start_time;
    counter_all_switches = 0;
    peaks = [];
    troughs = [];
    switch_times = [];
    completed = false;
  }

  -- The first statements of `switch_is_needed`: the extrema of the cycle and of the result, and
  -- the hysteresis.
  unfoldable pub track : MrftEngine F → F → MrftEngine F
  track e pv =
      let high = max e.max_pv_cycle pv in
      let low = min e.min_pv_cycle pv in
      record e {
        max_pv_cycle = high;
        min_pv_cycle = low;
        max_pv_result = max e.max_pv_result pv;
        min_pv_result = min e.min_pv_result pv;
        hysteresis = mul e.beta (max (sub high e.pv_value_ini) (sub e.pv_value_ini low));
      }

  -- The sign of the next relay step, from the tracked engine.
  unfoldable pub next_sign : MrftEngine F → F → ℤ
  next_sign e pv =
      let sp_pv_diff = sub e.pv_value_ini pv in
      let mv_sign_previous : ℤ = if le e.mv_value_ini e.mv_value_current then pos 1 else negsuc 0 in
      let band = mul (of_int mv_sign_previous) e.hysteresis in
      if eqb_ℤ e.action_multiplier (pos 1)
      then (if le (literal 0 0) (add sp_pv_diff band) then pos 1 else negsuc 0)
      else if le (sub sp_pv_diff band) (literal 0 0)
      then pos 1
      else negsuc 0

  -- The MV of a relay step in a direction.
  unfoldable pub relay_level : MrftEngine F → ℤ → F
  relay_level e sign = add e.mv_value_ini (mul (of_int sign) e.relay_amp_raw)

  -- Whether two MV values are at least 0.01 apart, in `f64`.
  unfoldable pub mv_differs : F → F → Bool
  mv_differs a b = le_wide (literal_wide 1 2) (abs_wide (sub_wide (widen a) (widen b)))

  unfoldable pub switch_is_needed : MrftEngine F → Tick F → MrftEngine F × Bool
  switch_is_needed e tick =
      let tracked = track e tick.pv in
      let sign = next_sign tracked tick.pv in
      let next = record tracked {
        mv_sign_next_step = sign;
        mv_sign_init = if e.counter_all_switches == 0 then sign else e.mv_sign_init;
        mv_value_next_step = relay_level e sign;
      } in
      let mv_switch_required = mv_differs next.mv_value_next_step next.mv_value_current in
      let enable_mv_switch =
        leb (e.time_previous_switch + seconds e.noise_protection_secs) tick.time
        || e.counter_all_switches == 0 in
      (next, mv_switch_required && enable_mv_switch)

  -- The recording part of `perform_switch`, at the counter's new value.
  unfoldable pub record_switch : MrftEngine F → ℕ → MrftEngine F
  unfolding ◌*ℤ◌
  record_switch e time =
      let due = leb e.num_switches_skip e.counter_all_switches in
      let is_peak = eqb_ℤ (e.mv_sign_next_step *ℤ e.action_multiplier) (pos 1) in
      record e {
        switch_times = if due then push e.switch_times time else e.switch_times;
        peaks = if due && is_peak then push e.peaks e.max_pv_result else e.peaks;
        troughs = if due && not is_peak then push e.troughs e.min_pv_result else e.troughs;
      }

  unfoldable pub perform_switch : MrftEngine F → Tick F → MrftEngine F × F
  perform_switch e tick =
      let counted = record e {
        time_previous_switch = tick.time;
        counter_all_switches = u32 (e.counter_all_switches + 1);
      } in
      let recorded = record_switch counted tick.time in
      let mv =
        if eqb_ℤ (cycles_remaining counted) (pos 0) then e.mv_value_ini else e.mv_value_next_step in
      (
        record recorded {
          max_pv_cycle = e.pv_value_ini;
          min_pv_cycle = e.pv_value_ini;
          max_pv_result = tick.pv;
          min_pv_result = tick.pv;
          mv_value_current = mv;
        },
        mv,
      )

  -- The part of `step` behind the switch: completion, at most once.
  unfoldable pub finish : MrftEngine F → List (Action F) → MrftEngine F × List (Action F)
  finish e actions =
      if is_complete e
      then (record e { completed = true }, push actions (complete (completion e)))
      else (e, actions)

  unfoldable pub step : MrftEngine F → Tick F → MrftEngine F × List (Action F)
  step e tick =
      if e.completed
      then (e, [])
      else let (seen, needed) = switch_is_needed e tick in
        let (switched, mv) = perform_switch seen tick in
        if needed then finish switched (write_mv mv ∷ []) else finish seen []

  unfoldable pub state : MrftEngine F → MrftState F
  state e = record {
    hysteresis = e.hysteresis;
    mv_value_current = e.mv_value_current;
    mv_sign_next_step = e.mv_sign_next_step;
    counter_all_switches = e.counter_all_switches;
    cycles_completed = cycles_completed e;
    cycles_remaining = cycles_remaining e;
  }

  -- The caller's loop: one `step` for each sample, the actions joined.
  unfoldable pub run : MrftEngine F → List (Tick F) → MrftEngine F × List (Action F)
  run e [] = (e, [])
  run e (tick ∷ ticks) =
      let (e', actions) = step e tick in let (last, rest) = run e' ticks in (last, actions ++ rest)
