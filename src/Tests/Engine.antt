-- ===== src/Tests/Engine.antt =====
-- The theorems on the engine at a run of the sample loop.
use bhtune.Common.{
  ℕ, ◌+◌, ◌*◌, ◌≤◌, ◌≡◌, refl, true, false, ◌==◌, if◌then◌else◌, arith, [], ◌∷◌, All,
}
use bhtune.Common.Int.{ℤ, pos, ◌≤ℤ◌}
use bhtune.Float.{fixed}
use bhtune.Process.{reverse}
use bhtune.Common.Result.{ok}
use bhtune.LoopConfig
use bhtune.LoopConfig.{LoopConfig}
use bhtune.Range.{new_mv_range, contains}
use bhtune.Mrft.Engine.{
  MrftEngine, run, new, step, finish, perform_switch, record_switch, switch_is_needed, track,
  next_sign, relay_level, mv_differs, is_complete, cycles_remaining, clamp_relay_amplitude, seconds,
}
use bhtune.Mrft.Counting.{IsCountable, is_peak, Inv, new-Inv, run-Inv}
use bhtune.Mrft.Actions.{StepShape, step-StepShape}
use bhtune.Mrft.Timing.{Spaced, run-new-Spaced, run-new_lasts}
use bhtune.Mrft.Clamp.{clamp_in_range}
use bhtune.Mrft.Extrema.{NoneNeeded, Records, run-Records_extremum}
use bhtune.Mrft.Progress.{EachNeeded, run_completes}
use bhtune.Tuning.Measure.{span}
use bhtune.Mrft.Accounts.{count_writes, count_completions, run_accounts}
use bhtune.Handoff.{MeasuredAction, run-new-Measured}
use bhtune.Tests.Samples.{
  config, initial, beta, sample, ticks, switching, pv_range, mv_range, fixed_small,
}

abbrev start : MrftEngine ℤ
start = new fixed config reverse beta initial 0

config-IsCountable : IsCountable config
config-IsCountable = (ground arith, ground arith)

run-new-Measured_example :
    All (MeasuredAction fixed reverse config pv_range) (run fixed start ticks).1
run-new-Measured_example =
    run-new-Measured fixed reverse config pv_range beta initial 0 ticks fixed_small
      config-IsCountable

run_accounts_example :
    let (e, actions) = run fixed start ticks in
    (count_writes actions ≡ e.counter_all_switches)
    × (count_writes actions ≤ 5)
    × (e.completed ≡ (count_writes actions == 5))
    × (count_completions actions ≡ (if count_writes actions == 5 then 1 else 0))
run_accounts_example =
    run_accounts fixed config reverse beta initial 0 ticks fixed_small config-IsCountable

-- The sample run makes all five switches, one on each but the first and the last sample.
sample_run_completes : (run fixed start ticks).0.completed ≡ true
unfolding run step finish perform_switch record_switch switch_is_needed track next_sign relay_level
    mv_differs is_complete cycles_remaining new clamp_relay_amplitude fixed
sample_run_completes = refl

run-new_lasts_example :
    (d : ℕ) × (span (run fixed start ticks).0.switch_times ≡ pos d) × (1 * 2 * seconds 1 ≤ d)
run-new_lasts_example =
    run-new_lasts fixed config reverse beta initial 0 ticks fixed_small config-IsCountable
      sample_run_completes

run-new-Spaced_example : Spaced (seconds 1) (run fixed start ticks).0.switch_times
run-new-Spaced_example =
    run-new-Spaced fixed config reverse beta initial 0 ticks fixed_small config-IsCountable

start-Inv : Inv fixed start
start-Inv = new-Inv fixed config reverse beta initial 0 config-IsCountable

first_needed : EachNeeded fixed start switching
unfolding step finish perform_switch record_switch switch_is_needed track next_sign relay_level
    mv_differs is_complete cycles_remaining new clamp_relay_amplitude fixed
first_needed = (refl, (refl, (refl, (refl, (refl, tt)))))

run_completes_example : (run fixed start switching).0.completed ≡ true
run_completes_example =
    run_completes fixed start switching fixed_small start-Inv (unfold new in refl) first_needed

step-StepShape_example : StepShape fixed start (step fixed start (sample 1 52000))
step-StepShape_example = step-StepShape fixed start (sample 1 52000) fixed_small start-Inv

-- The engine behind its two skipped switches.
abbrev warm : MrftEngine ℤ
warm = (run fixed start (sample 1 50000 ∷ sample 2 61000 ∷ [])).0

warm_open : warm.completed ≡ false
unfolding run step finish perform_switch record_switch switch_is_needed track next_sign relay_level
    mv_differs is_complete cycles_remaining new clamp_relay_amplitude fixed
warm_open = refl

calm : NoneNeeded fixed warm (sample 3 63000 ∷ [])
unfolding run step finish perform_switch record_switch switch_is_needed track next_sign relay_level
    mv_differs is_complete cycles_remaining new clamp_relay_amplitude fixed
calm = (refl, tt)

due :
    ((switch_is_needed fixed (run fixed warm (sample 3 63000 ∷ [])).0 (sample 4 39000)).1 ≡ true)
    × ((run fixed warm (sample 3 63000 ∷ [])).0.num_switches_skip
        ≤ (run fixed warm (sample 3 63000 ∷ [])).0.counter_all_switches + 1)
unfolding run step finish perform_switch record_switch switch_is_needed track next_sign relay_level
    mv_differs is_complete cycles_remaining new clamp_relay_amplitude fixed
due = (refl, ground arith)

run-Records_extremum_example :
    let w = (run fixed warm (sample 3 63000 ∷ [])).0 in
    let sign = (switch_is_needed fixed w (sample 4 39000)).0.mv_sign_next_step in
    Records fixed
      (is_peak sign w.action_multiplier)
      warm.peaks
      warm.troughs
      (fixed.max warm.max_pv_result (pos 63000))
      (fixed.min warm.min_pv_result (pos 63000))
      (pos 39000)
      (step fixed w (sample 4 39000)).0
run-Records_extremum_example =
    run-Records_extremum fixed warm (sample 3 63000 ∷ []) (sample 4 39000) fixed_small
      (run-Inv fixed start (sample 1 50000 ∷ sample 2 61000 ∷ []) fixed_small start-Inv) warm_open
      calm due.0 due.1

config_valid : LoopConfig.validate fixed config ≡ ok tt
unfolding LoopConfig.validate fixed
config_valid = refl

mv_range_valid : new_mv_range fixed (pos 100000) (pos 0) ≡ ok mv_range
unfolding new_mv_range fixed
mv_range_valid = refl

mv_inside : contains fixed mv_range (pos 45000) ≡ true
unfolding contains fixed
mv_inside = refl

clamp_in_range_example :
    let amp = clamp_relay_amplitude fixed (pos 10000) (pos 45000) (pos 0) (pos 100000) in
    (pos 0 ≤ℤ fixed.sub (pos 45000) amp)
    × (fixed.add (pos 45000) amp ≤ℤ pos 100000)
    × (pos 0 ≤ℤ amp)
clamp_in_range_example =
    clamp_in_range config (pos 45000) (pos 100000) (pos 0) mv_range config_valid mv_range_valid
      mv_inside
