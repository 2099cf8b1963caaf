-- ===== src/Handoff.antt =====
-- The engine of mrft.rs and `measure_oscillation` of tuning_math.rs together: what the engine hands
-- over meets the assertions of the measurement.
use bhtune.Common.{
  ℕ, ◌+◌, ◌*◌, ◌/◌, ◌≤◌, ◌≡◌, refl, sym, ap, subst, ◌∙◌, inl, inr, Bool, true, false, if◌then◌else◌,
  arith, List, [], ◌∷◌, length, some, All, All-append,
}
use bhtune.Common.Int.{pos, eqb_ℤ, ◌*ℤ◌}
use bhtune.Float.{Floats, SelfDiffSmall}
use bhtune.Process.{ControllerDirection, action_multiplier}
use bhtune.LoopConfig.{LoopConfig}
use bhtune.Range.{PvRange}
use bhtune.Mrft.Engine.{
  MrftEngine, Tick, InitialReadings, Action, write_mv, complete, Completion, completion, step, run,
  new,
}
use bhtune.Mrft.Frame.{settings-step}
use bhtune.Mrft.Counting.{
  total_switches, recorded, is_peak, is_first_peak, Counts, Inv, IsCountable, step-Inv, new-Inv,
}
use bhtune.Mrft.Actions.{step-StepShape}
use bhtune.Tuning.Types.{Oscillation}
use bhtune.Tuning.Measure.{measure_oscillation, extrema_sums, oscillation_of, span, tail}

sums_of :
    {F D : Type 0} (fl : Floats F D) (b : Bool) (peaks troughs : List F) (n k : ℕ)
    → k ≡ n * 2 + 1
    → length peaks ≡ (if b then (k + 1) / 2 else k / 2)
    → length troughs ≡ (if b then k / 2 else (k + 1) / 2)
    → (s : F × F) × (extrema_sums fl b peaks troughs n ≡ some s)
unfolding extrema_sums
sums_of fl true peaks troughs n k e lp lt = ((fl.sum (tail peaks), fl.sum troughs), ground arith)
sums_of fl false peaks troughs n k e lp lt = ((fl.sum peaks, fl.sum (tail troughs)), ground arith)

module _ {F D : Type 0} (fl : Floats F D) (direction : ControllerDirection) (config : LoopConfig F)
    (pv_range : PvRange F) where
  -- `measure_oscillation` returns on what a completion carries.
  abbrev pub IsMeasured : Completion F → Type 0
  IsMeasured c =
      (osc : Oscillation F) × (measure_oscillation fl c.peaks c.troughs c.switch_times
          c.mv_sign_init direction config pv_range
        ≡ some osc)

  abbrev pub MeasuredAction : Action F → Type 0
  MeasuredAction (write_mv _) = Unit
  MeasuredAction (complete c) = IsMeasured c

  abbrev pub Matches : MrftEngine F → Type 0
  Matches e =
      (e.action_multiplier ≡ action_multiplier direction)
      × (e.num_cycles_count ≡ config.num_cycles_count)

  measured :
      (c : Completion F) {b : Bool}
      → length c.switch_times ≡ config.num_cycles_count * 2 + 1
      → 1 ≤ config.num_cycles_count
      → (s : F × F) × (extrema_sums fl b c.peaks c.troughs config.num_cycles_count ≡ some s)
      → b ≡ eqb_ℤ (c.mv_sign_init *ℤ action_multiplier direction) (pos 1)
      → IsMeasured c
  unfolding measure_oscillation
  measured c len enough (s, e) b =
      (oscillation_of fl s (span c.switch_times) config.num_cycles_count pv_range, ground arith)

  completion-IsMeasured :
      (e : MrftEngine F)
      → Counts fl e
      → e.counter_all_switches ≡ total_switches e
      → Matches e
      → IsMeasured (completion e)
  unfolding is_peak
  completion-IsMeasured e c last (m, n) =
      let k : recorded e ≡ config.num_cycles_count * 2 + 1 = omega (arith, c.skip_odd) in
      let peak : is_first_peak e ≡ eqb_ℤ (e.mv_sign_init *ℤ action_multiplier direction) (pos 1) =
        ap (λ a. eqb_ℤ (e.mv_sign_init *ℤ a) (pos 1)) m in
      measured (completion e) (c.times_length ∙ k) (omega (arith, n, c.count_pos))
        (sums_of fl (is_first_peak e) e.peaks e.troughs config.num_cycles_count (recorded e) k
          c.peaks_length c.troughs_length)
        peak

  pub Matches-step : (e : MrftEngine F) (t : Tick F) → Matches e → Matches (step fl e t).0
  Matches-step e t (m, n) =
      let same = settings-step fl e t in
      (ap (λ s. s.action_multiplier) same ∙ m, ap (λ s. s.num_cycles_count) same ∙ n)

  pub step-Measured :
      (e : MrftEngine F) (t : Tick F)
      → SelfDiffSmall fl
      → Inv fl e
      → Matches e
      → All MeasuredAction (step fl e t).1
  step-Measured e t small i ms = elim (step-StepShape fl e t small i) [
    | inl (a, _, _, _) ↦ subst (All MeasuredAction) (sym a) tt
    | inr (inl (a, _, _, _, _)) ↦ subst (All MeasuredAction) (sym a) (tt, tt)
    | inr (inr (a, _, _, last, _, _)) ↦
        let same = settings-step fl e t in
        let all_made : (step fl e t).0.counter_all_switches ≡ total_switches (step fl e t).0 =
          omega
            (arith, last, ap (λ s. s.num_switches_skip) same, ap (λ s. s.num_cycles_count) same) in
        subst (All MeasuredAction) (sym a) (
          tt,
          (
            completion-IsMeasured (step fl e t).0 (step-Inv fl e t small i).0 all_made
                (Matches-step e t ms),
            tt,
          ),
        )
  ]

  run-Measured :
      (e : MrftEngine F) (ts : List (Tick F))
      → SelfDiffSmall fl
      → Inv fl e
      → Matches e
      → All MeasuredAction (run fl e ts).1
  unfolding run
  run-Measured e [] small i ms = tt
  run-Measured e (t ∷ ts) small i ms =
      All-append MeasuredAction (step fl e t).1 _ (step-Measured e t small i ms)
        (run-Measured (step fl e t).0 ts small (step-Inv fl e t small i) (Matches-step e t ms))

  -- For a countable configuration and whatever samples, every completion that the engine hands over
  -- is one on which `measure_oscillation`, for the same direction and configuration, returns an
  -- oscillation: none of its assertions fails.
  pub run-new-Measured :
      (beta : F) (initial : InitialReadings F) (start_time : ℕ) (ticks : List (Tick F))
      → SelfDiffSmall fl
      → IsCountable config
      → All MeasuredAction (run fl (new fl config direction beta initial start_time) ticks).1
  run-new-Measured beta initial start_time ticks small c =
      run-Measured (new fl config direction beta initial start_time) ticks small
        (new-Inv fl config direction beta initial start_time c) (unfold new in (refl, refl))
