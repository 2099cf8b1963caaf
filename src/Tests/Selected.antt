-- ===== src/Tests/Selected.antt =====
-- The theorem on the write-back of a run, at a driver that remembers what it was sent.
use bhtune.Common.{ℕ, true, false, List, [], ◌∷◌, Option, none, some, if◌then◌else◌}
use bhtune.Common.Int.{ℤ, pos, pos_part}
use bhtune.Common.Text.{Text, text_eq}
use bhtune.Common.Result.{Result, ok}
use bhtune.Float.{fixed}
use bhtune.Process.{pi}
use bhtune.Constants.{moderate}
use bhtune.Tags.{LoopTags}
use bhtune.Tuning.Types.{valid}
use bhtune.Runtime.Outcome.{good, written}
use bhtune.Driver.{TagWrite, float, raw}
use bhtune.Runtime.Ownership.{LiveOwner, tune_operation, Gateway, Session, LiveError, begin_step}
use bhtune.Runtime.Writeback.{insert_row, NewTuneWrite, Json, PidRestore}
use bhtune.Runtime.Writeback.Results.{TuneResultRow}
use bhtune.Runtime.Writeback.Select.{WriteBackReport, WriteBackRequest, maybe_write_back_with_owner}
use bhtune.Runtime.Writeback.Attempt
use bhtune.Tests.Samples.{ascii, template, thousandths_printer}
use bhtune.Tests.Restore.{tags}

-- A number is the code of its text's one character.
abbrev coded : Text → Option ℤ
coded [] = none
coded (c ∷ _) = some (pos c)

abbrev number : TagWrite ℤ → ℤ
number (float v) = v
number (raw _) = pos 0

abbrev Memory : Type 0
Memory = Text → ℤ

abbrev gateway : Gateway Memory ℤ (NewTuneWrite ℤ ℕ) ℕ
gateway = record {
  heartbeat_failed = λ w. (false, w);
  read = λ w tag. (ok (some (record { value = pos_part (w tag) ∷ []; quality = good })), w);
  write = λ w tag v. (
    ok (record { success = true; error_message = none }),
    λ t. if text_eq t tag then number v else w t,
  );
  begin_step = λ w _. (ok 1, w);
  finish_step = λ w _ _ _. (ok tt, w);
  get_intent = λ w _. (ok (some none), w);
  set_intent = λ w _ _. (ok tt, w);
  insert_row = λ w _ _. (ok tt, w);
  release_owner = λ w _. (ok tt, w);
}

abbrev json : Json ℕ ℤ
json = record {
  empty_object = 0;
  parse_object = λ _. some 0;
  with_pid_restore = λ _ (r : PidRestore ℤ). r.run_id ∷ [];
}

abbrev result : TuneResultRow ℤ
result = record {
  response_level = moderate;
  status = valid;
  invalid_reason = none;
  proportional = some (pos 1260);
  integral = some (pos 2220);
  derivative = some (pos 0);
}

abbrev list_results : Memory → ℕ → Result ℕ (List (TuneResultRow ℤ)) × Memory
list_results w run_id = (ok (result ∷ []), w)

abbrev request : WriteBackRequest
request = record {
  run_id = 7;
  controller_type = pi;
  template = template;
  write_pid = some moderate;
  allow_uncertain = false;
}

abbrev owner : LiveOwner
owner = record { id = 3; run_id = some 7; operation_kind = tune_operation }

abbrev session : Session Memory ℤ (NewTuneWrite ℤ ℕ)
session = record { world = λ _. pos 40; trace = []; queued = λ _. [] }

abbrev pid_tags : LoopTags ℤ
pid_tags = record tags {
  proportional_constant = some (b'P' ∷ []);
  integral_constant = some (b'I' ∷ []);
  derivative_constant = some (b'D' ∷ []);
}

abbrev moderate_report : WriteBackReport ℤ ℕ
moderate_report = record { outcome = written moderate; detail = none }

abbrev write_back : Result (LiveError ℕ) (WriteBackReport ℤ ℕ) × Session Memory ℤ (NewTuneWrite ℤ ℕ)
write_back =
    maybe_write_back_with_owner fixed thousandths_printer ascii coded json gateway list_results none
      request pid_tags (some owner) session
