-- ===== src/Tests/Poll.antt =====
-- The theorems on the polling loop at a world that plays a list of readings, one for each poll, and
-- then lets the run's time limit pass.
use bhtune.Common.{ℕ, ◌*◌, ◌≡◌, ◌≢◌, refl, false, List, [], ◌∷◌, Option, none, some, arith}
use bhtune.Common.Int.{ℤ, pos}
use bhtune.Common.Text.{Text, trim}
use bhtune.Common.Result.{Result, ok, err}
use bhtune.Float.{fixed}
use bhtune.Process.{reverse}
use bhtune.Mrft.Counting.{IsCountable}
use bhtune.Handoff.{IsMeasured}
use bhtune.Runtime.Outcome.{good}
use bhtune.Runtime.Actuation.{relay, PendingMvActuation, MvActuationTracker, scheduled, no_limit}
use bhtune.Runtime.Timing.{simulator, opcda, TimeRange, PollTimingAccumulator}
use bhtune.Runtime.World.{
  World, Link, RunError, out_of_fuel, PollEvent, poll_due, run_timeout, op_completed,
}
use bhtune.Runtime.Tracking.Reading.{read_pending_mv_verification}
use bhtune.Runtime.Tracking.Reading.Total.{read_pending_mv_verification_total}
use bhtune.Runtime.Poll.{PollSettings, PollOutcome, CompletedPoll, poll_completed}
use bhtune.Runtime.Poll.Trace.{sample_indices, upto, phase, overwritten}
use bhtune.Runtime.Poll.Loop.{
  run_polling_loop_with_timing, start_polling, run_from, polling_rounds, round, select, take_branch,
  continue_loop, finish_polling,
}
use bhtune.Runtime.Poll.Body.{tick_body}
use bhtune.Mrft.Engine.{
  new, step, finish, perform_switch, record_switch, switch_is_needed, track, next_sign, relay_level,
  mv_differs, is_complete, cycles_remaining, clamp_relay_amplitude,
}
use bhtune.Runtime.Poll.Run.{run_new, run_new-IsMeasured, sample_indices-run_new, phase-run_new}
use bhtune.Tests.Samples.{config, initial, beta, pv_range, fixed_small, ascii, pv_tag}

-- A reading is the code of its one character, in thousands.
abbrev coded : Text → Option ℤ
coded [] = none
coded (c ∷ _) = some (pos (c * 1000))

abbrev next_event : List ℕ → PollEvent
next_event [] = run_timeout
next_event (_ ∷ _) = poll_due

abbrev rest_of : List ℕ → List ℕ
rest_of [] = []
rest_of (_ ∷ cs) = cs

abbrev reading_of : List ℕ → Text
reading_of [] = []
reading_of (c ∷ _) = c ∷ []

abbrev player : World (List ℕ) ℤ ℕ
player = record {
  now = λ w. (0, w);
  select = λ w _ _. (next_event w, w);
  read_batch = λ w _.
      (ok (op_completed (λ _. some (record { value = reading_of w; quality = good }))), rest_of w);
  read_until = λ w _ _. (none, w);
  write_value = λ w _ _. (ok (op_completed tt), w);
  insert_sample = λ w _ _ _ _. (ok tt, w);
  insert_pending = λ w _. (ok 1, w);
  update_row = λ w _. (ok 1, w);
}

abbrev settings : PollSettings
settings = record {
  mrft_delay_secs = 0;
  poll_interval_ms = 1000;
  timeout_secs = 60;
  op_timeout_secs = 5;
  noise_protection_secs = 1;
  allow_uncertain_quality = false;
  process_variable = pv_tag;
  manipulated_variable = b'M' ∷ [];
  start_time = 0;
}

abbrev range : TimeRange
range = record { max_utc = 1000000000000000; max_duration = 1000000000000000 }

-- Readings of which each but the first asks for a switch.
abbrev readings : List ℕ
readings = 50 ∷ 61 ∷ 39 ∷ 61 ∷ 39 ∷ []

abbrev timing : PollTimingAccumulator
timing = record {
  requested_interval_ms = 1000;
  previous_timestamp = none;
  sample_gap_count = 0;
  total_gap_micros = 0;
  max_gap_micros = 0;
  missed_poll_opportunity_count = 0;
}

config-IsCountable : IsCountable config
config-IsCountable = (ground arith, ground arith)

abbrev simulated : Result (RunError ℕ) (PollOutcome ℤ) × Link (List ℕ) ℤ
simulated =
    run_new player fixed ascii coded range settings reverse config pv_range beta initial 0 simulator
      (record { utc = 0; monotonic = 0 }) false timing readings 9 none

-- The readings make the run complete.
simulated_completes : (c : CompletedPoll ℤ) × (simulated.0 ≡ ok (poll_completed c))
unfolding run_polling_loop_with_timing start_polling run_from polling_rounds round select
    take_branch tick_body continue_loop finish_polling new fixed clamp_relay_amplitude step finish
    perform_switch record_switch switch_is_needed track next_sign relay_level mv_differs is_complete
    cycles_remaining trim
simulated_completes = (_, refl)

run_new-IsMeasured_example :
    IsMeasured fixed reverse config pv_range simulated_completes.0.action
    × (sample_indices simulated.1.trace ≡ upto simulated_completes.0.next_tick_index)
run_new-IsMeasured_example =
    run_new-IsMeasured player fixed ascii coded range settings reverse config pv_range beta initial
      0 simulator (record { utc = 0; monotonic = 0 }) false timing readings 9 none fixed_small
      config-IsCountable refl simulated_completes.0 simulated_completes.1

sample_indices-run_new_example : (k : ℕ) × (sample_indices simulated.1.trace ≡ upto k)
sample_indices-run_new_example =
    sample_indices-run_new player fixed ascii coded range settings reverse config pv_range beta
      initial 0 simulator (record { utc = 0; monotonic = 0 }) false timing readings 9 none
      fixed_small config-IsCountable refl

abbrev tracker : MvActuationTracker ℤ
tracker = record {
  next_sequence = 1;
  previous_commanded_mv = pos 45000;
  confirmed_mv = none;
  pending = none;
  mv_span = pos 100000;
}

phase-run_new_example :
    phase
      (run_new player fixed ascii coded range settings reverse config pv_range beta initial 0 opcda
        (record { utc = 0; monotonic = 0 })
        false
        timing
        readings
        9
        (some tracker)).1.trace
    ≢ overwritten
phase-run_new_example =
    phase-run_new player fixed ascii coded range settings reverse config pv_range beta initial 0
      opcda (record { utc = 0; monotonic = 0 }) false timing readings 9 tracker fixed_small
      config-IsCountable refl

abbrev command : PendingMvActuation ℤ
command = record {
  id = some 1;
  kind = relay;
  target = pos 55000;
  tolerance = pos 100;
  switch_tick = 0;
  switch_instant = 0;
  accepted_instant = 0;
  first_check_at = 0;
  deadline = 4;
  last_readback = none;
}

abbrev link : Link (List ℕ) ℤ
link = record { world = []; trace = []; tracker = some (record tracker { pending = some command }) }

-- A driver that never answers.
read_pending_mv_verification_total_example :
    (read_pending_mv_verification player fixed ascii coded 2 pv_tag scheduled no_limit link).0
    ≢ err out_of_fuel
read_pending_mv_verification_total_example =
    read_pending_mv_verification_total player fixed ascii coded pv_tag 0 scheduled no_limit link
