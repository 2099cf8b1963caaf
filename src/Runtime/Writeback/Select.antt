-- ===== src/Runtime/Writeback/Select.antt =====
-- tune/writeback.rs: the write-back that a run makes of its results. A handler stands for its choice;
-- what it is told is left out. `list_results` is the query of the stored results.
use bhtune.Common.{ℕ, Bool, List, [], ◌∷◌, map, Option, none, some}
use bhtune.Common.Text.{Text, Chars}
use bhtune.Common.Result.{Result, ok, err, map_err}
use bhtune.Common.Io.{◌>>=◌, pure, throw}
use bhtune.Float.{Floats, Decimals}
use bhtune.Process.{ControllerType}
use bhtune.Constants.{ResponseLevel}
use bhtune.Template.{DcsTemplate}
use bhtune.Tags.{LoopTags}
use bhtune.Tuning.Controller.{ControllerPidValues}
use bhtune.Runtime.Outcome.{WriteBackOutcome, skipped, failed, written}
use bhtune.Runtime.Ownership.{LiveOwner, LiveError, external, owner_required, Gateway}
use bhtune.Runtime.Writeback.{
  write_kind, PidFailure, PidWriteOutcome, all_written, pid_failed, NewTuneWrite, Job, Json,
  Writing,
}
use bhtune.Runtime.Writeback.Attempt.{write_pid_values_inner}
use bhtune.Runtime.Writeback.Results.{
  TuneResultRow, ResultError, PidWritePreview, find_level, controller_pid_for_result,
  pid_write_preview,
}

-- `no_selection` is the choice without a handler, a skip with a fixed text.
pub data WriteBackSelection : Type 0 where
  selected : ResponseLevel → WriteBackSelection
  no_selection : WriteBackSelection
  selection_skipped : Text → WriteBackSelection
  selection_failed : Text → WriteBackSelection

-- Why nothing was written, or why it failed.
pub data WriteBackDetail (F E : Type 0) : Type 0 where
  no_pid_tags no_results no_level : WriteBackDetail F E
  by_handler : Text → WriteBackDetail F E
  no_result_for : ResponseLevel → WriteBackDetail F E
  no_target : ResultError → WriteBackDetail F E
  write_failure : PidFailure F E → WriteBackDetail F E

pub record WriteBackReport (F E : Type 0) : Type 0 where
  pub outcome : WriteBackOutcome
  pub detail : Option (WriteBackDetail F E)

-- What a run passes on.
pub record WriteBackRequest : Type 0 where
  pub run_id : ℕ
  pub controller_type : ControllerType
  pub template : DcsTemplate
  pub write_pid : Option ResponseLevel
  pub allow_uncertain : Bool

abbrev pub report_of : {F E : Type 0} → ResponseLevel → PidWriteOutcome F E → WriteBackReport F E
report_of level all_written = record { outcome = written level; detail = none }
report_of level (pid_failed e) = record { outcome = failed; detail = some (write_failure e) }

-- The job that writes a result's target.
abbrev pub job_of :
    {F : Type 0} → WriteBackRequest → Text → Text → Text → ControllerPidValues F → Job F
job_of request p i d values = record {
  run_id = request.run_id;
  p_tag = p;
  i_tag = i;
  d_tag = d;
  response_level = values.response_level;
  target = record {
    proportional = values.proportional.value;
    integral = values.integral.value;
    derivative = values.derivative.value;
  };
  kind = write_kind;
  allow_uncertain = request.allow_uncertain;
}

module _ {W F D E J : Type 0} (fl : Floats F D) (dc : Decimals F D) (ch : Chars)
    (parse : Text → Option F) (json : Json J F) (gateway : Gateway W F (NewTuneWrite F E) E)
    (list_results : W → ℕ → Result E (List (TuneResultRow F)) × W)
    (handler : Option (List (PidWritePreview F) → WriteBackSelection))
    (request : WriteBackRequest) where
  abbrev skip : WriteBackDetail F E → Writing W F E (LiveError E) (WriteBackReport F E)
  skip detail = pure (record { outcome = skipped; detail = some detail })

  abbrev fail : WriteBackDetail F E → Writing W F E (LiveError E) (WriteBackReport F E)
  fail detail = pure (record { outcome = failed; detail = some detail })

  unfoldable pub results_of_run : Writing W F E (LiveError E) (List (TuneResultRow F))
  results_of_run s =
      let (r, w) = list_results s.world request.run_id in
      (map_err external r, record s { world = w })

  unfoldable pub write_target_values :
      Text
      → Text
      → Text
      → Option LiveOwner
      → ControllerPidValues F
      → Writing W F E (LiveError E) (WriteBackReport F E)
  write_target_values p i d none values = throw owner_required
  write_target_values p i d (some owner) values = do
    outcome ← write_pid_values_inner fl ch parse json gateway owner (job_of request p i d values)
    pure (report_of values.response_level outcome)

  unfoldable pub write_back_values :
      Text
      → Text
      → Text
      → Option LiveOwner
      → Result ResultError (ControllerPidValues F)
      → Writing W F E (LiveError E) (WriteBackReport F E)
  unfolding write_target_values
  write_back_values p i d owner (err e) = fail (no_target e)
  write_back_values p i d owner (ok values) = write_target_values p i d owner values

  unfoldable pub write_back_found :
      Text
      → Text
      → Text
      → Option LiveOwner
      → ResponseLevel
      → Option (TuneResultRow F)
      → Writing W F E (LiveError E) (WriteBackReport F E)
  unfolding controller_pid_for_result write_back_values
  write_back_found p i d owner level none = fail (no_result_for level)
  write_back_found p i d owner level (some result) =
      write_back_values p i d owner
        (controller_pid_for_result fl dc result request.controller_type request.template)

  unfoldable pub write_back_level :
      Text
      → Text
      → Text
      → Option LiveOwner
      → List (TuneResultRow F)
      → ResponseLevel
      → Writing W F E (LiveError E) (WriteBackReport F E)
  unfolding find_level write_back_found
  write_back_level p i d owner results level =
      write_back_found p i d owner level (find_level level results)

  -- The level that the caller named, or else the handler's choice.
  unfoldable pub selection_of : Option ResponseLevel → List (TuneResultRow F) → WriteBackSelection
  unfolding pid_write_preview
  selection_of (some level) results = selected level
  selection_of none results = elim handler [
    | none ↦ no_selection
    | some select ↦
        select
          (map (λ r. pid_write_preview fl dc r request.controller_type request.template) results)
  ]

  unfoldable pub write_back_selection :
      Text
      → Text
      → Text
      → Option LiveOwner
      → List (TuneResultRow F)
      → WriteBackSelection
      → Writing W F E (LiveError E) (WriteBackReport F E)
  unfolding write_back_level
  write_back_selection p i d owner results (selected level) =
      write_back_level p i d owner results level
  write_back_selection p i d owner results no_selection = skip no_level
  write_back_selection p i d owner results (selection_skipped detail) = skip (by_handler detail)
  write_back_selection p i d owner results (selection_failed detail) = fail (by_handler detail)

  unfoldable pub write_back_results :
      Text
      → Text
      → Text
      → Option LiveOwner
      → List (TuneResultRow F)
      → Writing W F E (LiveError E) (WriteBackReport F E)
  unfolding write_back_selection selection_of
  write_back_results p i d owner [] = skip no_results
  write_back_results p i d owner (r ∷ rs) =
      write_back_selection p i d owner (r ∷ rs) (selection_of request.write_pid (r ∷ rs))

  -- `maybe_write_back_with_owner`, by the three tags, which all have to be there.
  unfoldable pub write_back_tags :
      Option Text
      → Option Text
      → Option Text
      → Option LiveOwner
      → Writing W F E (LiveError E) (WriteBackReport F E)
  unfolding write_back_results results_of_run
  write_back_tags (some p) (some i) (some d) owner = do
    results ← results_of_run
    write_back_results p i d owner results
  write_back_tags _ _ _ owner = skip no_pid_tags

  unfoldable pub maybe_write_back_with_owner :
      LoopTags F → Option LiveOwner → Writing W F E (LiveError E) (WriteBackReport F E)
  unfolding write_back_tags
  maybe_write_back_with_owner tags owner =
      write_back_tags tags.proportional_constant tags.integral_constant tags.derivative_constant
        owner
