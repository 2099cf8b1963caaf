-- ===== src/Runtime/Writeback/Attempt.antt =====
-- tune/writeback.rs: one attempt, from the owner's check to its audit row, and the functions that
-- acquire an owner for it.
use bhtune.Common.{
  ℕ, Bool, true, false, ◌||◌, not, ◌==◌, List, [], ◌∷◌, Option, none, some, if◌then◌else◌,
}
use bhtune.Common.Text.{Text, Chars}
use bhtune.Common.Result.{Result, ok, err, fail_if}
use bhtune.Common.Io.{◌>>=◌, ◌>>◌, pure, lift, attempt}
use bhtune.Float.{Floats}
use bhtune.Runtime.Ownership.{
  LiveOwner, LiveOperationKind, tune_operation, pid_write_operation, pid_revert_operation,
  LiveError, owner_run_mismatch, operation_not_authorized, release_failed, Gateway, ensure_healthy,
  release,
}
use bhtune.Runtime.Writeback.{
  Terms, WriteKind, write_kind, revert_kind, rollback_succeeded, rollback_failed, PidError,
  RollbackFailure, pre_read, stopped_at, rolled_back, rollback_also_failed, PidWriteOutcome,
  all_written, pid_failed, NewTuneWrite, Progress, Job, Json, Writing, no_terms, no_progress,
  steps_of, insert_row, read_previous_pid_values, persist_pid_restore_intent, write_steps,
  rollback_pid_writes,
}

abbrev pub is_write : WriteKind → Bool
is_write write_kind = true
is_write revert_kind = false

abbrev pub is_nil : {A : Type 0} → List A → Bool
is_nil [] = true
is_nil (_ ∷ _) = false

abbrev is_run : Option ℕ → ℕ → Bool
is_run none n = false
is_run (some m) n = m == n

-- `NewTuneWrite::new`, with the kind and the policy of the job.
abbrev pub new_write : {F E : Type 0} → Job F → NewTuneWrite F E
new_write job = record {
  response_level = job.response_level;
  kind = job.kind;
  allow_uncertain_quality = job.allow_uncertain;
  previous = none;
  written = no_terms;
  readback = no_terms;
  success = false;
  error_message = none;
  rollback_state = none;
  rollback_error = none;
}

unfoldable pub operation_kind_authorizes_pid_write : WriteKind → LiveOperationKind → Bool
operation_kind_authorizes_pid_write write_kind tune_operation = true
operation_kind_authorizes_pid_write write_kind pid_write_operation = true
operation_kind_authorizes_pid_write write_kind _ = false
operation_kind_authorizes_pid_write revert_kind pid_revert_operation = true
operation_kind_authorizes_pid_write revert_kind _ = false

abbrev join_release :
    {E A : Type 0}
    → Result (LiveError E) A
    → Result (LiveError E) (Unit {0})
    → Result (LiveError E) A
join_release (ok a) (ok _) = ok a
join_release (err e) (ok _) = err e
join_release (ok _) (err e) = err e
join_release (err e) (err f) = err (release_failed e f)

module _ {W F D E J : Type 0} (fl : Floats F D) (ch : Chars) (parse : Text → Option F)
    (json : Json J F) (gateway : Gateway W F (NewTuneWrite F E) E) (owner : LiveOwner)
    (job : Job F) where
  -- The audit row of what was written and read back.
  abbrev pub progress_row : Terms F → Progress F → NewTuneWrite F E
  progress_row previous p = record (new_write job) {
    previous = some previous;
    written = p.written;
    readback = p.readback;
  }

  abbrev pub stopped_row : Terms F → Progress F → PidError F E → NewTuneWrite F E
  stopped_row previous p e = record (progress_row previous p) { error_message = some e }

  -- An insertion of the row, and then the outcome.
  unfoldable pub report :
      NewTuneWrite F E → PidWriteOutcome F E → Writing W F E (LiveError E) (PidWriteOutcome F E)
  unfolding insert_row
  report row outcome = do insert_row fl ch parse json gateway owner job row; pure outcome

  unfoldable pub report_rollback :
      NewTuneWrite F E
      → PidError F E
      → List (RollbackFailure E)
      → Writing W F E (LiveError E) (PidWriteOutcome F E)
  unfolding report
  report_rollback row e [] =
      report (record row { rollback_state = some rollback_succeeded }) (pid_failed (rolled_back e))
  report_rollback row e (f ∷ fs) =
      report (record row { rollback_state = some rollback_failed; rollback_error = some (f ∷ fs) })
        (pid_failed (rollback_also_failed e (f ∷ fs)))

  -- What follows the loop.
  unfoldable pub finish_write :
      Terms F
      → Progress F
      → Option (PidError F E)
      → Writing W F E (LiveError E) (PidWriteOutcome F E)
  unfolding report report_rollback
  finish_write previous p none =
      report (record (progress_row previous p) { success = true }) all_written
  finish_write previous p (some e) =
      if not (is_write job.kind) || is_nil p.rollback_targets
      then report (stopped_row previous p e) (pid_failed (stopped_at e))
      else (do
        failures ← rollback_pid_writes fl ch parse json gateway owner job p.rollback_targets
        report_rollback (stopped_row previous p e) e failures)

  unfoldable pub after_pre_read :
      Result (PidError F E) (Terms F) → Writing W F E (LiveError E) (PidWriteOutcome F E)
  unfolding finish_write report
  after_pre_read (err e) =
      report (record (new_write job) { error_message = some e }) (pid_failed (pre_read e))
  after_pre_read (ok previous) = do
    persist_pid_restore_intent fl ch parse json gateway owner job previous
    (p, failure) ←
        write_steps fl ch parse json gateway owner job (steps_of job previous) no_progress
    finish_write previous p failure

  unfoldable pub check_owner_run : Result (LiveError E) (Unit {0})
  check_owner_run = fail_if (not (is_run owner.run_id job.run_id)) owner_run_mismatch

  unfoldable pub write_pid_values_inner : Writing W F E (LiveError E) (PidWriteOutcome F E)
  unfolding check_owner_run after_pre_read
  write_pid_values_inner = do
    ensure_healthy fl gateway owner
    lift check_owner_run
    previous ← attempt (read_previous_pid_values fl ch parse json gateway owner job)
    after_pre_read previous

  -- `write_pid_values_with_owner`. `driver_run` is the run of the driver that records the writes.
  unfoldable pub write_pid_values_with_owner :
      Option ℕ → Writing W F E (LiveError E) (PidWriteOutcome F E)
  unfolding write_pid_values_inner operation_kind_authorizes_pid_write
  write_pid_values_with_owner driver_run = do
    lift (
        fail_if (not (is_run driver_run job.run_id) || not (is_run owner.run_id job.run_id))
          owner_run_mismatch)
    lift (
        fail_if (not (operation_kind_authorizes_pid_write job.kind owner.operation_kind))
          operation_not_authorized)
    write_pid_values_inner

  -- `write_pid_values` from the acquired owner on: the attempt and the release, which both are made.
  unfoldable pub write_and_release : Writing W F E (LiveError E) (PidWriteOutcome F E)
  unfolding write_pid_values_inner
  write_and_release = do
    result ← attempt write_pid_values_inner
    released ← attempt (release fl gateway owner)
    lift (join_release result released)
