-- ===== src/Runtime/Restore/Attempts.antt =====
-- What a restore behind the MV attempts, and how its report sums it up.
use bhtune.Common.{
  ◌≡◌, refl, ◌∙◌, ap, ◌↔◌, Bool, true, false, ◌&&◌, not, List, [], ◌∷◌, ◌++◌, none, some, arith,
}
use mathlib.Core.List.{append-nil}
use bhtune.Common.Text.{text_eq, text_eq_iff}
use bhtune.Tags.{LoopTags}
use bhtune.Template.{DcsTemplate}
use bhtune.Runtime.Timing.{opcda}
use bhtune.Runtime.Restore.{
  RestoreStepOutcome, RestoreReport, RestoreModePolicy, release_to_initial, keep_manual,
  InitialState, MutationGuard, Write, raw_written, value_written, Answers, Plant, or_empty,
  all_succeeded, failure_summary, restore_setpoint_step, restore_mode_attribute_step,
  restore_mode_by_policy, restore_after_mv_with_policy, mode_policy,
  should_settle_before_auto_release, is_succeeded,
}

-- A report has no failure to sum up exactly when all of its steps succeeded.
pub failure_summary_iff :
    {E : Type 0} (r : RestoreReport E) → (failure_summary r ≡ none) ↔ (all_succeeded r ≡ true)
unfolding failure_summary all_succeeded
failure_summary_iff r = ground arith

abbrev is_release : RestoreModePolicy → Bool
is_release release_to_initial = true
is_release keep_manual = false

abbrev when : {A : Type 0} → Bool → A → List A
when true a = a ∷ []
when false a = []

module _ {F : Type 0} (tags : LoopTags F) (template : DcsTemplate) (initial : InitialState F)
    (guard : MutationGuard) where
  -- The mode is put back if it was written, may be reverted and was not Manual.
  abbrev pub due_mode : RestoreModePolicy → List (Write F)
  due_mode policy = elim tags.controller_mode [
    | none ↦ []
    | some tag ↦
        when
          (is_release policy
            && guard.mode_written
            && template.revert_mode
            && not (text_eq (or_empty initial.mode_raw) template.mode_manual_value))
          (raw_written tag (or_empty initial.mode_raw))
  ]

  -- The setpoint is put back with the mode, if there are a tag and a captured value.
  abbrev pub due_setpoint : List (Write F)
  due_setpoint = elim tags.setpoint_variable [
    | none ↦ []
    | some tag ↦ elim initial.setpoint_ini [
      | none ↦ []
      | some v ↦ when (guard.mode_written && template.revert_mode) (value_written tag v)
    ]
  ]

  -- The attribute is put back if it was written and was not in program mode.
  abbrev pub due_mode_attribute : List (Write F)
  due_mode_attribute = elim tags.mode_attribute [
    | none ↦ []
    | some tag ↦
        when
          (guard.mode_attribute_written
            && not (
                text_eq (or_empty initial.mode_attribute_raw)
                  (or_empty template.mode_attribute_program_value)))
          (raw_written tag (or_empty initial.mode_attribute_raw))
  ]

  module _ {W E : Type 0} (answers : Answers W F E) where
    mode_writes :
        (policy : RestoreModePolicy) (s : Plant W F)
        → (restore_mode_by_policy answers tags template initial guard policy s).1.writes
          ≡ s.writes ++ due_mode policy
    unfolding restore_mode_by_policy
    mode_writes policy s = ground (arith, append-nil s.writes)

    setpoint_writes :
        (s : Plant W F)
        → (restore_setpoint_step answers tags template initial guard s).1.writes
          ≡ s.writes ++ due_setpoint
    unfolding restore_setpoint_step
    setpoint_writes s = ground (arith, append-nil s.writes)

    mode_attribute_writes :
        (s : Plant W F)
        → (restore_mode_attribute_step answers tags template initial guard s).1.writes
          ≡ s.writes ++ due_mode_attribute
    unfolding restore_mode_attribute_step
    mode_attribute_writes s = ground (arith, append-nil s.writes)

    -- Whatever the driver answers to each write, and whatever the MV step ended with, a restore behind
    -- the MV writes what is due: the mode unless it is kept in Manual, then the setpoint, then the mode
    -- attribute, each to its captured value, once, and nothing else; a write that is refused keeps none
    -- of the others from being tried.
    pub restore_after_mv_with_policy-attempts :
        (mv : RestoreStepOutcome E) (policy : RestoreModePolicy) (s : Plant W F)
        → (restore_after_mv_with_policy answers tags template initial guard mv policy s).1.writes
          ≡ s.writes ++ due_mode policy ++ due_setpoint ++ due_mode_attribute
    unfolding restore_after_mv_with_policy
    restore_after_mv_with_policy-attempts mv policy s =
        let s1 = (restore_mode_by_policy answers tags template initial guard policy s).1 in
        let s2 = (restore_setpoint_step answers tags template initial guard s1).1 in
        mode_attribute_writes s2
        ∙ ap (λ l. l ++ due_mode_attribute)
            (setpoint_writes s1 ∙ ap (λ l. l ++ due_setpoint) (mode_writes policy s))

    kept_manual :
        (mv : RestoreStepOutcome E)
        → is_succeeded mv ≡ false
        → initial.mode_raw ≡ some template.mode_auto_value
        → due_mode (mode_policy opcda tags template initial guard mv) ≡ []
    unfolding mode_policy should_settle_before_auto_release
    kept_manual mv lost auto =
        ground (
          arith,
          auto,
          lost,
          (text_eq_iff template.mode_auto_value template.mode_auto_value).1 refl,
        )

    -- A loop on OPC DA that was in Auto is not released to Auto while its MV is not restored: if the MV
    -- step did not succeed, the restore with the policy of the code writes the setpoint and the mode
    -- attribute where they are due, and no mode.
    pub restore_after_mv_with_policy-mode_policy :
        (mv : RestoreStepOutcome E) (s : Plant W F)
        → is_succeeded mv ≡ false
        → initial.mode_raw ≡ some template.mode_auto_value
        → (restore_after_mv_with_policy answers tags template initial guard mv
            (mode_policy opcda tags template initial guard mv)
            s).1.writes
          ≡ s.writes ++ due_setpoint ++ due_mode_attribute
    restore_after_mv_with_policy-mode_policy mv s lost auto =
        restore_after_mv_with_policy-attempts mv (mode_policy opcda tags template initial guard mv)
          s
        ∙ ap (λ l. s.writes ++ l ++ due_setpoint ++ due_mode_attribute) (kept_manual mv lost auto)
        ∙ ap (λ l. l ++ due_setpoint ++ due_mode_attribute) (append-nil s.writes)
