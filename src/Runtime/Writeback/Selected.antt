-- ===== src/Runtime/Writeback/Selected.antt =====
-- What stands behind a write-back that a run reports as written.
use bhtune.Common.{ℕ, ◌≡◌, sym, ap, ◌∙◌, not, ◌&&◌, map, List, ◌++◌, Option, none, some, arith}
use bhtune.Common.Text.{Text, Chars}
use bhtune.Common.Result.{
  Result, ok, err, map_err_ok, ok_injective, ◌>>=◌, ◌>>◌, fail_if, >>-eq-ok, >>=-eq-ok,
}
use bhtune.Float.{Floats, Decimals}
use bhtune.Process.{ControllerType}
use bhtune.Template.{DcsTemplate}
use bhtune.Constants.{ResponseLevel}
use bhtune.Runtime.Writeback.Steps.{Reading, number_in}
use bhtune.Tuning.Types.{PidParameters, valid}
use bhtune.Tuning.Convert.{opc_write_values}
use bhtune.Tuning.Controller.{
  ControllerPidValues, controller_pid_values, rounded_active_term, integral_target,
  derivative_target,
}
use bhtune.Runtime.Outcome.{written}
use bhtune.Runtime.Ownership.{LiveError, Gateway, Session}
use bhtune.Runtime.Writeback.{NewTuneWrite, Json}
use bhtune.Runtime.Writeback.Log.{Entry, entries}
use bhtune.Runtime.Writeback.Promises.{AllWritten}
use bhtune.Runtime.Writeback.Results.{
  TuneResultRow, ResultError, or_err, is_valid, is_some, result_invalid, valid_with_reason,
  missing_proportional, missing_integral, missing_derivative, value_not_finite, PidWritePreview,
  find_level, pid_parameters_for_result, controller_pid_for_result, pid_write_preview,
}
use bhtune.Runtime.Writeback.Select.{
  WriteBackSelection, selected, WriteBackReport, WriteBackRequest, job_of,
}

-- The checks of a stored result, with the level that they pass on.
checked-level :
    {F : Type 0} (a b : Result ResultError (Unit {0})) (p? i? d? : Option F)
    (check : F → F → F → Result ResultError (Unit {0})) (level : ResponseLevel)
    {v : PidParameters F}
    → (do
      a
      b
      x ← or_err p? missing_proportional
      y ← or_err i? missing_integral
      z ← or_err d? missing_derivative
      check x y z
      ok (record { response_level = level; proportional = x; integral = y; derivative = z }))
      ≡ ok v
    → v.response_level ≡ level
checked-level (err _) b p? i? d? check level h = cc
checked-level (ok _) (err _) p? i? d? check level h = cc
checked-level (ok _) (ok _) none i? d? check level h = cc
checked-level (ok _) (ok _) (some x) none d? check level h = cc
checked-level (ok _) (ok _) (some x) (some y) none check level h = cc
checked-level (ok _) (ok _) (some x) (some y) (some z) check level h =
    ap (λ v. v.response_level) (sym (ok_injective (>>-eq-ok (check x y z) _ h).1))

-- A result of three parts that succeeds has a value of each.
three_parts :
    {E A B C T : Type 0} (a : Result E A) (b : Result E B) (c : Result E C) (f : A → B → C → T)
    {t : T}
    → (do x ← a; y ← b; z ← c; ok (f x y z)) ≡ ok t
    → (x : A) × (y : B) × (z : C) × (f x y z ≡ t)
three_parts (ok x) (ok y) (ok z) f h = (x, y, z, ok_injective h)
three_parts (ok x) (ok y) (err _) f h = cc
three_parts (ok x) (err _) c f h = cc
three_parts (err _) b c f h = cc

module _ {F D : Type 0} (fl : Floats F D) (dc : Decimals F D) where
  -- A result with a target is marked valid and has no reason to be invalid.
  pub controller_pid_for_result-valid :
      (result : TuneResultRow F) (c : ControllerType) (template : DcsTemplate)
      (values : ControllerPidValues F)
      → controller_pid_for_result fl dc result c template ≡ ok values
      → (result.status ≡ valid) × (result.invalid_reason ≡ none)
  unfolding controller_pid_for_result pid_parameters_for_result
  controller_pid_for_result-valid result c template values h = ground arith

  pid_parameters_for_result-level :
      (result : TuneResultRow F) (p : PidParameters F)
      → pid_parameters_for_result fl dc result ≡ ok p
      → p.response_level ≡ result.response_level
  unfolding pid_parameters_for_result
  pid_parameters_for_result-level result p h =
      checked-level (fail_if (not (is_valid result.status)) (result_invalid result.invalid_reason))
        (fail_if (is_some result.invalid_reason) valid_with_reason) result.proportional
        result.integral result.derivative
        (λ x y z.
          fail_if (not (fl.is_finite x && fl.is_finite y && fl.is_finite z)) value_not_finite)
        result.response_level h

  controller_pid_values-level :
      (p : PidParameters F) (c : ControllerType) (template : DcsTemplate)
      (values : ControllerPidValues F)
      → controller_pid_values fl dc p c template ≡ ok values
      → values.response_level ≡ p.response_level
  unfolding controller_pid_values opc_write_values
  controller_pid_values-level p c template values h =
      let raw = opc_write_values fl p c template.integral_type in
      let (_, _, _, same) =
        three_parts
          (rounded_active_term fl dc raw.proportional "proportional" template.pid_rounding)
          (integral_target fl dc c template.pid_rounding raw.integral)
          (derivative_target fl dc c template.pid_rounding raw.derivative)
          (λ x y z. record {
            response_level = raw.response_level;
            proportional = x;
            integral = y;
            derivative = z;
          })
          h in
      ap (λ q. q.response_level) (sym same)

  -- A target has the level of its result.
  pub controller_pid_for_result-level :
      (result : TuneResultRow F) (c : ControllerType) (template : DcsTemplate)
      (values : ControllerPidValues F)
      → controller_pid_for_result fl dc result c template ≡ ok values
      → values.response_level ≡ result.response_level
  unfolding controller_pid_for_result pid_parameters_for_result controller_pid_values
  controller_pid_for_result-level result c template values h =
      let (p, parameters, target) = >>=-eq-ok _ _ h in
      controller_pid_values-level p c template values (map_err_ok _ _ target)
      ∙ pid_parameters_for_result-level result p parameters

module _ {W F D E J : Type 0} (fl : Floats F D) (dc : Decimals F D) (ch : Chars)
    (parse : Text → Option F) (json : Json J F) (gateway : Gateway W F (NewTuneWrite F E) E)
    (list_results : W → ℕ → Result E (List (TuneResultRow F)) × W)
    (handler : Option (List (PidWritePreview F) → WriteBackSelection))
    (request : WriteBackRequest) where
  -- The number in the driver's answer for a tag, under the request's policy for uncertain readings.
  abbrev pub numbers_of : Reading F
  numbers_of = number_in E fl ch parse request.allow_uncertain

  -- The level was named by the caller, or else by the handler, which was shown the results' previews.
  pub data Asked (results : List (TuneResultRow F)) (level : ResponseLevel) : Type 0 where
    by_caller : request.write_pid ≡ some level → Asked results level
    by_choice :
        (select : List (PidWritePreview F) → WriteBackSelection)
        → request.write_pid ≡ none
        → handler ≡ some select
        → select
            (map (λ r. pid_write_preview fl dc r request.controller_type request.template) results)
          ≡ selected level
        → Asked results level

  -- A stored result with its target, which was written and confirmed: the log from `s` to `t`.
  pub record TargetWritten (results : List (TuneResultRow F)) (p i d : Text) (level : ResponseLevel)
      (s t : Session W F (NewTuneWrite F E)) : Type 0 where
    pub chosen : ResponseLevel
    pub result : TuneResultRow F
    pub values : ControllerPidValues F
    pub asked : Asked results chosen
    pub found : find_level chosen results ≡ some result
    pub target :
        controller_pid_for_result fl dc result request.controller_type request.template ≡ ok values
    pub status : result.status ≡ valid
    pub reported : values.response_level ≡ level
    pub same : chosen ≡ level
    pub log : List (Entry F (NewTuneWrite F E))
    pub written : AllWritten fl numbers_of (job_of request p i d values) log
    pub added : entries t.trace ≡ entries s.trace ++ log

  module _ (results : List (TuneResultRow F)) (p i d : Text) where
    -- What a report of a written level promises.
    abbrev IfWritten :
        Session W F (NewTuneWrite F E)
        → Result (LiveError E) (WriteBackReport F E) × Session W F (NewTuneWrite F E)
        → Type 0
    IfWritten s r =
        (report : WriteBackReport F E) (level : ResponseLevel)
        → r.0 ≡ ok report
        → report.outcome ≡ written level
        → TargetWritten results p i d level s r.1

  -- The results that the database lists for the run.
  abbrev pub Listed : W → List (TuneResultRow F) → Type 0
  Listed w results = (list_results w request.run_id).0 ≡ ok results

  -- The three tags are there, the database listed results, and a target of theirs was written.
  abbrev pub WrittenBack :
      Option Text
      → Option Text
      → Option Text
      → ResponseLevel
      → Session W F (NewTuneWrite F E)
      → Session W F (NewTuneWrite F E)
      → Type 0
  WrittenBack p? i? d? level s t =
      (p : Text) × (i : Text) × (d : Text) × (p? ≡ some p)
      × (i? ≡ some i)
      × (d? ≡ some d)
      × (results : List (TuneResultRow F)) × Listed s.world results
      × TargetWritten results p i d level s t
