-- ===== src/Tests/Writeback.antt =====
-- The theorems on PID write-back at a gateway that reads one number from every tag.
use bhtune.Common.{ℕ, ◌+◌, ◌*◌, ◌≡◌, refl, true, false, List, [], ◌∷◌, ◌++◌, Option, none, some}
use bhtune.Common.Int.{ℤ, pos}
use bhtune.Common.Text.{Text, trim}
use bhtune.Common.Result.{ok}
use bhtune.Float.{fixed}
use bhtune.Constants.{moderate}
use bhtune.Runtime.Outcome.{good}
use bhtune.Driver.{float}
use bhtune.Runtime.Ownership.{
  LiveOwner, pid_write_operation, Gateway, Session, write_audited, ensure_healthy,
  persist_restore_intent, write_target, record_and_forward, begin_step, forward,
  take_previous_write_value, queue_previous_write_value,
}
use bhtune.Runtime.Ownership.Audit.{Forwards, intent_of, write_audited-Forwards}
use bhtune.Runtime.Writeback.{
  write_kind, all_written, NewTuneWrite, Job, Json, PidRestore, read_previous_pid_values,
  read_value, persist_pid_restore_intent, load_intent, intent_object, write_steps,
  write_and_verify_pid_value, write_value, rollback_pid_writes, rollback_step, insert_row,
  write_outcome, pid_value_within_tolerance,
}
use bhtune.Runtime.Writeback.Attempt.{
  write_pid_values_inner, check_owner_run, after_pre_read, finish_write, report, report_rollback,
}
use bhtune.Runtime.Writeback.Log.{Entry, entries}
use bhtune.Runtime.Writeback.Steps.{number_in}
use bhtune.Runtime.Writeback.Promises.{AllWritten, write_pid_values_inner-all_written}
use bhtune.Runtime.Writeback.Orderly.{Orderly}
use bhtune.Tests.Samples.{ascii}

abbrev Row : Type 0
Row = NewTuneWrite ℤ ℕ

-- A number is the code of its text's one character, in thousands.
abbrev coded : Text → Option ℤ
coded [] = none
coded (c ∷ _) = some (pos (c * 1000))

-- Every tag reads 50; the database and the driver accept everything.
abbrev gateway : Gateway ℕ ℤ Row ℕ
gateway = record {
  heartbeat_failed = λ w. (false, w);
  read = λ w _. (ok (some (record { value = b'2' ∷ []; quality = good })), w);
  write = λ w _ _. (ok (record { success = true; error_message = none }), w);
  begin_step = λ w _. (ok w, w + 1);
  finish_step = λ w _ _ _. (ok tt, w);
  get_intent = λ w _. (ok (some none), w);
  set_intent = λ w _ _. (ok tt, w);
  insert_row = λ w _ _. (ok tt, w);
  release_owner = λ w _. (ok tt, w);
}

abbrev json : Json ℕ ℤ
json = record {
  empty_object = 0;
  parse_object = λ _. some 0;
  with_pid_restore = λ _ (r : PidRestore ℤ). r.run_id ∷ [];
}

abbrev owner : LiveOwner
owner = record { id = 3; run_id = some 7; operation_kind = pid_write_operation }

-- The job that writes these targets.
abbrev job : ℕ → ℕ → Job ℤ
job p i = record {
  run_id = 7;
  p_tag = b'P' ∷ [];
  i_tag = b'I' ∷ [];
  d_tag = b'D' ∷ [];
  response_level = moderate;
  target = record { proportional = pos p; integral = pos i; derivative = pos 50000 };
  kind = write_kind;
  allow_uncertain = false;
}

abbrev session : Session ℕ ℤ Row
session = record { world = 0; trace = []; queued = λ _. [] }

confirming :
    (write_pid_values_inner fixed ascii coded json gateway owner (job 50100 50000) session).0
    ≡ ok all_written
unfolding write_pid_values_inner check_owner_run after_pre_read finish_write ensure_healthy
    read_previous_pid_values read_value persist_pid_restore_intent load_intent intent_object
    persist_restore_intent write_steps write_and_verify_pid_value write_value write_audited
    write_target record_and_forward begin_step forward take_previous_write_value
    queue_previous_write_value report report_rollback rollback_pid_writes rollback_step insert_row
    write_outcome pid_value_within_tolerance fixed trim
confirming = refl

write_pid_values_inner-all_written_example :
    (l : List (Entry ℤ Row)) × AllWritten fixed
      (number_in ℕ fixed ascii coded false)
      (job 50100 50000)
      l
    × (entries
          (write_pid_values_inner fixed ascii coded json gateway owner
            (job 50100 50000)
            session).1.trace
        ≡ entries [] ++ l)
write_pid_values_inner-all_written_example =
    write_pid_values_inner-all_written fixed ascii coded json gateway owner (job 50100 50000)
      session confirming

write_audited-Forwards_example :
    Forwards
      (intent_of fixed gateway owner (some 7) (b'P' ∷ []) (float (pos 50000)) session)
      session
      (write_audited fixed gateway owner (some 7) (b'P' ∷ []) (float (pos 50000)) session)
write_audited-Forwards_example =
    write_audited-Forwards fixed gateway owner (some 7) (b'P' ∷ []) (float (pos 50000)) session
