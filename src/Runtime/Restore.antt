-- ===== src/Runtime/Restore.antt =====
-- tune/restore.rs: the steps that put the loop back behind the MV, and their report. A plant answers
-- each write and changes by it; the writes are kept in order. An error stands for its text, and the
-- pause before the setpoint is left out: no other code of the step runs in it.
pub mod Attempts
use bhtune.Common.{
  Bool, true, false, ◌&&◌, ◌||◌, not, List, [], ◌∷◌, ◌++◌, push, Option, none, some, if◌then◌else◌,
}
use bhtune.Common.Text.{Text, text_eq}
use bhtune.Common.Result.{Result, ok, err}
use bhtune.Tags.{LoopTags}
use bhtune.Template.{DcsTemplate, is_none}
use bhtune.Runtime.Timing.{DriverKind, simulator, opcda}

pub data RestoreStepOutcome (E : Type 0) : Type 0 where
  not_needed succeeded : RestoreStepOutcome E
  step_failed : E → RestoreStepOutcome E

pub record RestoreReport (E : Type 0) : Type 0 where
  pub mv : RestoreStepOutcome E
  pub mode : RestoreStepOutcome E
  pub setpoint : RestoreStepOutcome E
  pub mode_attribute : RestoreStepOutcome E

-- The labels of `failure_summary`.
pub data RestoreStep : Type 0 where
  mv_step mode_step setpoint_step mode_attribute_step : RestoreStep

pub data RestoreModePolicy : Type 0 where
  release_to_initial keep_manual : RestoreModePolicy

-- What was captured before the first write, as far as the steps read it.
pub record InitialState (F : Type 0) : Type 0 where
  pub mode_raw : Option Text
  pub mode_attribute_raw : Option Text
  pub setpoint_ini : Option F

pub record MutationGuard : Type 0 where
  pub mode_attribute_written : Bool
  pub mode_written : Bool
  pub mv_written : Bool

pub data Write (F : Type 0) : Type 0 where
  raw_written : Text → Text → Write F
  value_written : Text → F → Write F

-- How the driver answers.
pub record Answers (W F E : Type 0) : Type 0 where
  pub write_raw : W → Text → Text → Result E (Unit {0}) × W
  pub write_value : W → Text → F → Result E (Unit {0}) × W

pub record Plant (W F : Type 0) : Type 0 where
  pub world : W
  pub writes : List (Write F)

abbrev pub is_failed : {E : Type 0} → RestoreStepOutcome E → Bool
is_failed not_needed = false
is_failed succeeded = false
is_failed (step_failed _) = true

unfoldable pub all_succeeded : {E : Type 0} → RestoreReport E → Bool
all_succeeded r =
    not (is_failed r.mv)
    && not (is_failed r.mode)
    && not (is_failed r.setpoint)
    && not (is_failed r.mode_attribute)

abbrev failure_of : {E : Type 0} → RestoreStep → RestoreStepOutcome E → List (RestoreStep × E)
failure_of step not_needed = []
failure_of step succeeded = []
failure_of step (step_failed e) = (step, e) ∷ []

abbrev nonempty : {A : Type 0} → List A → Option (List A)
nonempty [] = none
nonempty (x ∷ xs) = some (x ∷ xs)

-- The failures that `failure_summary` joins to a text.
unfoldable pub failure_summary : {E : Type 0} → RestoreReport E → Option (List (RestoreStep × E))
failure_summary r = nonempty (
    failure_of mv_step r.mv
    ++ failure_of mode_step r.mode
    ++ failure_of setpoint_step r.setpoint
    ++ failure_of mode_attribute_step r.mode_attribute)

abbrev pub or_empty : Option Text → Text
or_empty none = []
or_empty (some s) = s

abbrev outcome_of : {E : Type 0} → Result E (Unit {0}) → RestoreStepOutcome E
outcome_of (ok _) = succeeded
outcome_of (err e) = step_failed e

module _ {W F E : Type 0} (answers : Answers W F E) where
  unfoldable pub restore_value_step : Text → F → Plant W F → RestoreStepOutcome E × Plant W F
  restore_value_step tag v s =
      let (r, w) = answers.write_value s.world tag v in
      (outcome_of r, record { world = w; writes = push s.writes (value_written tag v) })

  unfoldable pub restore_raw_step : Text → Text → Plant W F → RestoreStepOutcome E × Plant W F
  restore_raw_step tag v s =
      let (r, w) = answers.write_raw s.world tag v in
      (outcome_of r, record { world = w; writes = push s.writes (raw_written tag v) })

  module _ (tags : LoopTags F) (template : DcsTemplate) (initial : InitialState F)
      (guard : MutationGuard) where
    unfoldable pub restore_mode_step : Plant W F → RestoreStepOutcome E × Plant W F
    unfolding restore_raw_step
    restore_mode_step s = elim tags.controller_mode [
      | none ↦ (not_needed, s)
      | some mode_tag ↦
          let mode_raw = or_empty initial.mode_raw in
          if not guard.mode_written
            || not template.revert_mode
            || text_eq mode_raw template.mode_manual_value
          then (not_needed, s)
          else restore_raw_step mode_tag mode_raw s
    ]

    unfoldable pub restore_setpoint_step : Plant W F → RestoreStepOutcome E × Plant W F
    unfolding restore_value_step
    restore_setpoint_step s =
        if not guard.mode_written || not template.revert_mode
        then (not_needed, s)
        else elim tags.setpoint_variable [
          | none ↦ (not_needed, s)
          | some sv_tag ↦ elim initial.setpoint_ini [
            | none ↦ (not_needed, s)
            | some sv_ini ↦ restore_value_step sv_tag sv_ini s
          ]
        ]

    unfoldable pub restore_mode_attribute_step : Plant W F → RestoreStepOutcome E × Plant W F
    unfolding restore_raw_step
    restore_mode_attribute_step s = elim tags.mode_attribute [
      | none ↦ (not_needed, s)
      | some attr_tag ↦
          let attr_raw = or_empty initial.mode_attribute_raw in
          if not guard.mode_attribute_written
            || text_eq attr_raw (or_empty template.mode_attribute_program_value)
          then (not_needed, s)
          else restore_raw_step attr_tag attr_raw s
    ]

    unfoldable pub restore_mode_by_policy :
        RestoreModePolicy → Plant W F → RestoreStepOutcome E × Plant W F
    unfolding restore_mode_step
    restore_mode_by_policy release_to_initial s = restore_mode_step s
    restore_mode_by_policy keep_manual s = (not_needed, s)

    unfoldable pub restore_after_mv_with_policy :
        RestoreStepOutcome E → RestoreModePolicy → Plant W F → RestoreReport E × Plant W F
    unfolding restore_mode_by_policy restore_setpoint_step restore_mode_attribute_step
    restore_after_mv_with_policy mv policy s0 =
        let (mode, s1) = restore_mode_by_policy policy s0 in
        let (setpoint, s2) = restore_setpoint_step s1 in
        let (mode_attribute, s3) = restore_mode_attribute_step s2 in
        (record { mv = mv; mode = mode; setpoint = setpoint; mode_attribute = mode_attribute }, s3)

abbrev is_opcda : DriverKind → Bool
is_opcda opcda = true
is_opcda simulator = false

abbrev is_text : Option Text → Text → Bool
is_text none t = false
is_text (some s) t = text_eq s t

abbrev pub is_succeeded : {E : Type 0} → RestoreStepOutcome E → Bool
is_succeeded succeeded = true
is_succeeded not_needed = false
is_succeeded (step_failed _) = false

unfoldable pub should_settle_before_auto_release :
    {F : Type 0} → DriverKind → LoopTags F → DcsTemplate → InitialState F → MutationGuard → Bool
should_settle_before_auto_release driver tags template initial guard =
    is_opcda driver
    && not (is_none tags.controller_mode)
    && template.revert_mode
    && guard.mode_written
    && is_text initial.mode_raw template.mode_auto_value

-- The policy of `attempt_restore_with_actuation_with_timing_and_audit_policy`.
unfoldable pub mode_policy :
    {F E : Type 0}
    → DriverKind
    → LoopTags F
    → DcsTemplate
    → InitialState F
    → MutationGuard
    → RestoreStepOutcome E
    → RestoreModePolicy
unfolding should_settle_before_auto_release
mode_policy driver tags template initial guard mv =
    if should_settle_before_auto_release driver tags template initial guard && not (is_succeeded mv)
    then keep_manual
    else release_to_initial
