-- ===== src/Runtime/Outcome.antt =====
-- tune/outcome.rs: how a run ends, and the outcome that is reported for it.
use Prim.Native.String.{String}
use bhtune.Common.{ℕ, Option}
use bhtune.Common.Text.{Text}
use bhtune.Constants.{ResponseLevel}

-- `Quality` of crates/bhtune-driver/src/types.rs.
pub data Quality : Type 0 where
  good uncertain bad : Quality

pub data TuneOutcome : Type 0 where
  completed aborted timed_out poor_quality actuation_failed write_back_failed restore_incomplete :
      TuneOutcome

pub data WriteBackOutcome : Type 0 where
  skipped failed : WriteBackOutcome
  written : ResponseLevel → WriteBackOutcome

pub data AbortReason (F : Type 0) : Type 0 where
  user_interrupt : AbortReason F
  timeout : ℕ → AbortReason F
  operation_timed_out : Text → ℕ → AbortReason F
  quality_rejected : Text → Quality → AbortReason F
  -- The tag, the target, the last readback, the tolerance, the elapsed milliseconds and the
  -- deadline in seconds.
  mv_actuation_unconfirmed : Text → F → Option F → F → ℕ → ℕ → AbortReason F

pub data RunOutcome (F : Type 0) : Type 0 where
  run_completed : WriteBackOutcome → Option Text → RunOutcome F
  run_aborted : AbortReason F → RunOutcome F
  run_restore_incomplete : Text → RunOutcome F

unfoldable pub label : TuneOutcome → String
label completed = "completed"
label aborted = "aborted"
label timed_out = "timed_out"
label poor_quality = "poor_quality"
label actuation_failed = "actuation_failed"
label write_back_failed = "write_back_failed"
label restore_incomplete = "restore_incomplete"

unfoldable pub tune_outcome_for_run : {F : Type 0} → RunOutcome F → TuneOutcome
tune_outcome_for_run (run_completed failed _) = write_back_failed
tune_outcome_for_run (run_completed _ _) = completed
tune_outcome_for_run (run_aborted user_interrupt) = aborted
tune_outcome_for_run (run_aborted (timeout _)) = timed_out
tune_outcome_for_run (run_aborted (operation_timed_out _ _)) = timed_out
tune_outcome_for_run (run_aborted (quality_rejected _ _)) = poor_quality
tune_outcome_for_run (run_aborted (mv_actuation_unconfirmed _ _ _ _ _ _)) = actuation_failed
tune_outcome_for_run (run_restore_incomplete _) = restore_incomplete
