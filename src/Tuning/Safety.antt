-- ===== src/Tuning/Safety.antt =====
-- What a usable result guarantees, and how the checked calculation refines the unchecked one.
use mathlib.Core.Option
use bhtune.Common.{
  ℕ, ◌≡◌, sym, ◌∙◌, ◌≢◌, ◌↔◌, ◌⊎◌, inl, inr, true, false, List, [], ◌∷◌, map, Option, none, some,
  Option-cases, arith,
}
use bhtune.Common.Int.{ℤ}
use bhtune.Float.{Floats}
use bhtune.Process.{ControllerDirection}
use bhtune.Constants.{ResponseLevel, all_levels}
use bhtune.LoopConfig.{LoopConfig}
use bhtune.Range.{PvRange}
use bhtune.Template.{DcsTemplate}
use bhtune.Tuning.Types.{Oscillation, TuningResult, PidParameters, CheckedTuningResult}
use bhtune.Tuning.Measure.{measure_oscillation}
use bhtune.Tuning.Convert.{calculate_tuning_result, calculate_pid_parameters}
use bhtune.Tuning.Checked.{
  invalid_result, valid_result, usable_values, invalid_oscillation_reason, tuning_reason,
  checked_result_from_tuning, checked_level, calculate_all, calculate_all_checked,
}

none-some : {A : Type 0} {a : A} → none ≡ some a → ⊥
none-some h = cc

module _ {F D : Type 0} (fl : Floats F D) where
  -- Finite, and not at most zero.
  abbrev pub IsPositive : F → Type 0
  IsPositive v = (fl.is_finite v ≡ true) × (fl.le v (fl.literal 0 0) ≡ false)

  pub record IsSafeOscillation (o : Oscillation F) : Type 0 where
    pub pv_amp_raw : IsPositive o.pv_amp_raw
    pub pv_amp_percent : IsPositive o.pv_amp_percent
    pub period_minutes : IsPositive o.period_minutes
    pub frequency : IsPositive o.frequency

  pub record IsFiniteResult (r : TuningResult F) (v : PidParameters F) : Type 0 where
    pub kp : fl.is_finite r.kp ≡ true
    pub ti_minutes : fl.is_finite r.ti_minutes ≡ true
    pub td_minutes : fl.is_finite r.td_minutes ≡ true
    pub proportional : fl.is_finite v.proportional ≡ true
    pub integral : fl.is_finite v.integral ≡ true
    pub derivative : fl.is_finite v.derivative ≡ true

  abbrev pub IsSafe : Oscillation F → TuningResult F → PidParameters F → Type 0
  IsSafe o r v = IsSafeOscillation o × IsFiniteResult r v

  oscillation_reason_iff :
      (o : Oscillation F) → (invalid_oscillation_reason fl o ≡ none) ↔ IsSafeOscillation o
  unfolding invalid_oscillation_reason
  oscillation_reason_iff o = (λ h. ground arith, λ h. ground arith)

  tuning_reason_iff :
      (r : TuningResult F) (v : PidParameters F)
      → (tuning_reason fl r v ≡ none) ↔ IsFiniteResult r v
  unfolding tuning_reason
  tuning_reason_iff r v = (λ h. ground arith, λ h. ground arith)

  module _ (osc : Oscillation F) (config : LoopConfig F) (template : DcsTemplate)
      (level : ResponseLevel) where
    abbrev result : TuningResult F
    result = calculate_tuning_result fl osc config level

    abbrev parameters : PidParameters F
    parameters = calculate_pid_parameters fl result template

    checked_cases :
        ((invalid_oscillation_reason fl osc ≡ none)
          × (tuning_reason fl result parameters ≡ none)
          × (usable_values (checked_level fl osc config template level)
              ≡ some (result, parameters)))
        ⊎ ((invalid_oscillation_reason fl osc ≢ none) ⊎ (tuning_reason fl result parameters ≢ none))
          × (usable_values (checked_level fl osc config template level) ≡ none)
    unfolding checked_level checked_result_from_tuning usable_values invalid_result valid_result
    checked_cases = elim (Option-cases (invalid_oscillation_reason fl osc)) [
      | inl fine ↦ elim (Option-cases (tuning_reason fl result parameters)) [
        | inl good ↦ inl (fine, good, ground arith)
        | inr (reason, bad) ↦ inr (inr (λ h. none-some (sym h ∙ bad)), ground arith)
      ]
      | inr (reason, bad) ↦ inr (inl (λ h. none-some (sym h ∙ bad)), ground arith)
    ]

  -- One level of the checked calculation, from an oscillation: its usable values, if it has any, are
  -- those of the unchecked calculation, and it has them exactly when the oscillation's numbers are
  -- finite and positive and all the results are finite.
  pub checked_level-IsSafe :
      (osc : Oscillation F) (config : LoopConfig F) (template : DcsTemplate) (level : ResponseLevel)
      → let r = calculate_tuning_result fl osc config level in
        let v = calculate_pid_parameters fl r template in
        let checked = checked_level fl osc config template level in
        ((usable_values checked ≡ some (r, v)) ↔ IsSafe osc r v)
        × ((usable_values checked ≡ none) ⊎ (usable_values checked ≡ some (r, v)))
  checked_level-IsSafe osc config template level =
      let r = calculate_tuning_result fl osc config level in
      let v = calculate_pid_parameters fl r template in
      let (o, o') = oscillation_reason_iff osc in
      let (t, t') = tuning_reason_iff r v in
      elim (checked_cases osc config template level) [
        | inl (fine, good, e) ↦ ((λ _. (o fine, t good), λ _. e), inr e)
        | inr (inl bad, e) ↦
            ((λ h. absurd (none-some (sym e ∙ h)), λ h. absurd (bad (o' h.0))), inl e)
        | inr (inr bad, e) ↦
            ((λ h. absurd (none-some (sym e ∙ h)), λ h. absurd (bad (t' h.1))), inl e)
      ]

  -- Level by level, the checked list has no usable values or those of the unchecked list.
  abbrev pub Agrees :
      List (CheckedTuningResult F) → List (TuningResult F × PidParameters F) → Type 0
  Agrees [] [] = Unit
  Agrees (c ∷ cs) (r ∷ rs) = ((usable_values c ≡ none) ⊎ (usable_values c ≡ some r)) × Agrees cs rs
  Agrees _ _ = ⊥

  -- Both calculations panic, or neither does and the lists agree.
  abbrev pub BothAgree :
      Option (List (CheckedTuningResult F))
      → Option (List (TuningResult F × PidParameters F))
      → Type 0
  BothAgree none none = Unit
  BothAgree (some cs) (some rs) = Agrees cs rs
  BothAgree _ _ = ⊥

  -- On any input `calculate_all_checked` panics exactly when `calculate_all` does, and otherwise gives
  -- for each of the three response levels, in the same order, the same numbers or none that are usable.
  pub calculate_all_checked_refines :
      (peaks troughs : List F) (switch_times : List ℕ) (mv_sign_init : ℤ)
      (direction : ControllerDirection) (config : LoopConfig F) (pv_range : PvRange F)
      (template : DcsTemplate)
      → BothAgree
          (calculate_all_checked fl peaks troughs switch_times mv_sign_init direction config
            pv_range template)
          (calculate_all fl peaks troughs switch_times mv_sign_init direction config pv_range
            template)
  unfolding calculate_all calculate_all_checked
  calculate_all_checked_refines peaks troughs times sign direction config range template =
      agree (measure_oscillation fl peaks troughs times sign direction config range)
    where
      levels :
          (osc : Oscillation F) (ls : List ResponseLevel)
          → Agrees (map (checked_level fl osc config template) ls) (
              map
                (λ level.
                  let r = calculate_tuning_result fl osc config level in
                  (r, calculate_pid_parameters fl r template))
                ls)
      levels osc [] = tt
      levels osc (l ∷ ls) = ((checked_level-IsSafe osc config template l).1, levels osc ls)

      agree :
          (m : Option (Oscillation F))
          → BothAgree
              (Option.map (λ osc. map (checked_level fl osc config template) all_levels) m)
              (Option.map
                (λ osc.
                  map
                    (λ level.
                      let r = calculate_tuning_result fl osc config level in
                      (r, calculate_pid_parameters fl r template))
                    all_levels)
                m)
      agree none = tt
      agree (some osc) = levels osc all_levels
