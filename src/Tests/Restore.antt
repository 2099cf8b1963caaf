-- ===== src/Tests/Restore.antt =====
-- The theorems on the restore and on sample times at sample data.
use bhtune.Common.{ℕ, ◌+◌, ◌*◌, ◌≡◌, refl, true, [], ◌∷◌, ◌++◌, none, some, arith}
use bhtune.Common.Int.{ℤ, pos}
use bhtune.Common.Result.{ok, err, ◌>>=◌}
use bhtune.Process.{reverse}
use bhtune.Tags.{LoopTags, value}
use bhtune.Runtime.Timing.{
  TimeRange, RunTimeAnchor, simulator, opcda, for_driver, new_timing, fixed_step, milliseconds,
}
use bhtune.Runtime.Timing.Gaps.{take_samples, exact, take_samples-for_driver}
use bhtune.Runtime.Restore.{
  step_failed, release_to_initial, InitialState, MutationGuard, Answers, Plant, mode_policy,
  restore_after_mv_with_policy,
}
use bhtune.Runtime.Restore.Attempts.{
  due_mode, due_setpoint, due_mode_attribute, restore_after_mv_with_policy-attempts,
  restore_after_mv_with_policy-mode_policy,
}
use bhtune.Tests.Samples.{template, pv_tag}

abbrev pub tags : LoopTags ℤ
tags = record {
  process_variable = pv_tag;
  manipulated_variable = b'M' ∷ [];
  setpoint_variable = some (b'S' ∷ []);
  controller_mode = some (b'C' ∷ []);
  mode_attribute = some (b'A' ∷ []);
  upper_pv_range = value (pos 100000);
  lower_pv_range = value (pos 0);
  upper_mv_range = value (pos 100000);
  lower_mv_range = value (pos 0);
  controller_direction = value reverse;
  proportional_constant = none;
  integral_constant = none;
  derivative_constant = none;
}

-- The loop was in Auto.
abbrev captured : InitialState ℤ
captured = record {
  mode_raw = some (b'2' ∷ []);
  mode_attribute_raw = some (b'1' ∷ []);
  setpoint_ini = some (pos 50000);
}

abbrev guard : MutationGuard
guard = record { mode_attribute_written = true; mode_written = true; mv_written = true }

-- A driver that refuses each write of a text.
abbrev refusing : Answers ℕ ℤ ℕ
refusing = record { write_raw = λ w _ _. (err w, w + 1); write_value = λ w _ _. (ok tt, w + 1) }

abbrev plant : Plant ℕ ℤ
plant = record { world = 0; writes = [] }

restore_after_mv_with_policy-attempts_example :
    (restore_after_mv_with_policy refusing tags template captured guard
      (step_failed 7)
      release_to_initial
      plant).1.writes
    ≡ []
      ++ due_mode tags template captured guard release_to_initial
      ++ due_setpoint tags template captured guard
      ++ due_mode_attribute tags template captured guard
restore_after_mv_with_policy-attempts_example =
    restore_after_mv_with_policy-attempts tags template captured guard refusing (step_failed 7)
      release_to_initial plant

restore_after_mv_with_policy-mode_policy_example :
    (restore_after_mv_with_policy refusing tags template captured guard
      (step_failed 7)
      (mode_policy {E = ℕ} opcda tags template captured guard (step_failed 7))
      plant).1.writes
    ≡ []
      ++ due_setpoint tags template captured guard
      ++ due_mode_attribute tags template captured guard
restore_after_mv_with_policy-mode_policy_example =
    restore_after_mv_with_policy-mode_policy tags template captured guard refusing (step_failed 7)
      plant refl refl

abbrev range : TimeRange
range = record { max_utc = 1000000000000000; max_duration = 1000000000000000 }

abbrev anchor : RunTimeAnchor
anchor = record { utc = 5; monotonic = 0 }

take_samples-for_driver_example :
    (for_driver range simulator anchor 250 >>= λ source.
    take_samples range (λ n. n + 9) 3 (source, new_timing 250))
    ≡ ok (fixed_step (5 + milliseconds (3 * 250)) (milliseconds 250), exact 5 250 3)
take_samples-for_driver_example =
    take_samples-for_driver range (λ n. n + 9) anchor 250 3 (omega arith) (omega arith)
      (omega arith) (omega arith)
