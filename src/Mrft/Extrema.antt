-- ===== src/Mrft/Extrema.antt =====
-- The recorded extrema: each is the running maximum or minimum of the samples since the last switch.
use mathlib.Core.List.{foldl}
use mathlib.Core.Path.{ap₂}
use bhtune.Common.{
  ◌+◌, ◌≤◌, ◌≡◌, refl, sym, ap, ◌∙◌, Bool, true, false, leb_iff, arith, List, [], ◌∷◌, map, push,
  true≢false, if◌then◌else◌,
}
use bhtune.Float.{Floats, SelfDiffSmall}
use bhtune.Mrft.Engine.{
  MrftEngine, Tick, track, switch_is_needed, record_switch, perform_switch, step, run, is_complete,
}
use bhtune.Mrft.Cases.{step_cases, finish_cases}
use bhtune.Mrft.Counting.{Inv, open-lt, is_complete_lem, is_peak, step-Inv, run-Inv}

module _ {F D : Type 0} (fl : Floats F D) where
  -- No sample asks for a switch.
  abbrev pub NoneNeeded : MrftEngine F → List (Tick F) → Type 0
  NoneNeeded e [] = Unit
  NoneNeeded e (t ∷ ts) = ((switch_is_needed fl e t).1 ≡ false) × NoneNeeded (step fl e t).0 ts

  -- The maximum and the minimum that a window of samples leaves, and what stands.
  abbrev Window : MrftEngine F → List (Tick F) → MrftEngine F → Type 0
  Window e ts r =
      (r.max_pv_result ≡ foldl fl.max e.max_pv_result (map (λ t. t.pv) ts))
      × (r.min_pv_result ≡ foldl fl.min e.min_pv_result (map (λ t. t.pv) ts))
      × (r.peaks ≡ e.peaks)
      × (r.troughs ≡ e.troughs)
      × (r.completed ≡ e.completed)

  idle_step :
      (e : MrftEngine F) (t : Tick F)
      → Inv fl e
      → e.completed ≡ false
      → (switch_is_needed fl e t).1 ≡ false
      → (step fl e t).0 ≡ (switch_is_needed fl e t).0
  idle_step e t (c, s) o idle =
      step_cases fl (λ r. r.0 ≡ (switch_is_needed fl e t).0) e t
        (λ done. absurd (true≢false (sym done ∙ o)))
        (λ _ needed. absurd (true≢false (sym needed ∙ idle)))
        (λ _ _.
          finish_cases fl (λ r. r.0 ≡ (switch_is_needed fl e t).0) _ _ (λ d. absurd (too_early d))
            (λ _. refl))
    where
      too_early : is_complete (switch_is_needed fl e t).0 ≡ true → ⊥
      too_early d =
          unfold switch_is_needed track in
          let reached =
            (leb_iff _ _).0 (sym (is_complete_lem (switch_is_needed fl e t).0 c.total_small) ∙ d) in
          absurd (omega (arith, reached, open-lt fl e s o))

  idle_seen :
      (e : MrftEngine F) (t : Tick F)
      → let s = (switch_is_needed fl e t).0 in
        (s.max_pv_result ≡ fl.max e.max_pv_result t.pv)
        × (s.min_pv_result ≡ fl.min e.min_pv_result t.pv)
        × (s.peaks ≡ e.peaks)
        × (s.troughs ≡ e.troughs)
        × (s.completed ≡ e.completed)
  unfolding switch_is_needed track
  idle_seen e t = (refl, refl, refl, refl, refl)

  run-Window :
      (e : MrftEngine F) (ts : List (Tick F))
      → SelfDiffSmall fl
      → Inv fl e
      → e.completed ≡ false
      → NoneNeeded e ts
      → Window e ts (run fl e ts).0
  unfolding run
  run-Window e [] small i o n = (refl, refl, refl, refl, refl)
  run-Window e (t ∷ ts) small i o (idle, rest) =
      let same = idle_step e t i o idle in
      let (hi, lo, ps, qs, d) = idle_seen e t in
      let (hi', lo', ps', qs', d') =
        run-Window (step fl e t).0 ts small (step-Inv fl e t small i)
          (ap (λ s. s.completed) same ∙ d ∙ o) rest in
      let pvs = map (λ (u : Tick F). u.pv) ts in
      (
        hi' ∙ ap (λ m. foldl fl.max m pvs) (ap (λ s. s.max_pv_result) same ∙ hi),
        lo' ∙ ap (λ m. foldl fl.min m pvs) (ap (λ s. s.min_pv_result) same ∙ lo),
        ps' ∙ ap (λ s. s.peaks) same ∙ ps,
        qs' ∙ ap (λ s. s.troughs) same ∙ qs,
        d' ∙ ap (λ s. s.completed) same ∙ d,
      )

  -- What a recorded switch leaves, by whether it records a peak: the lists and extrema before it, its
  -- sample, the engine behind it.
  abbrev pub Records : Bool → List F → List F → F → F → F → MrftEngine F → Type 0
  Records peak peaks troughs high low pv r =
      (r.peaks ≡ (if peak then push peaks (fl.max high pv) else peaks))
      × (r.troughs ≡ (if peak then troughs else push troughs (fl.min low pv)))
      × (r.max_pv_result ≡ pv)
      × (r.min_pv_result ≡ pv)

  -- The step of a switch that is recorded.
  switch-Records :
      (w : MrftEngine F) (t : Tick F)
      → Inv fl w
      → w.completed ≡ false
      → (switch_is_needed fl w t).1 ≡ true
      → w.num_switches_skip ≤ w.counter_all_switches + 1
      → Records
          (is_peak (switch_is_needed fl w t).0.mv_sign_next_step w.action_multiplier)
          w.peaks
          w.troughs
          w.max_pv_result
          w.min_pv_result
          t.pv
          (step fl w t).0
  switch-Records w t (c, s) o needed due =
      step_cases fl (λ r. Here r.0) w t (λ done. absurd (true≢false (sym done ∙ o)))
        (λ _ _. finish_cases fl (λ r. Here r.0) _ _ (λ _. recorded_now) (λ _. recorded_now))
        (λ _ idle. absurd (true≢false (sym needed ∙ idle)))
    where
      Here : MrftEngine F → Type 0
      Here =
          Records (is_peak (switch_is_needed fl w t).0.mv_sign_next_step w.action_multiplier)
            w.peaks w.troughs w.max_pv_result w.min_pv_result t.pv

      recorded_now : Here (perform_switch fl (switch_is_needed fl w t).0 t).0
      recorded_now =
          unfold perform_switch record_switch switch_is_needed track is_peak in
          (
            ground (arith, c.total_small, c.counter_le),
            ground (arith, c.total_small, c.counter_le),
            refl,
            refl,
          )

  -- From an engine in order and not completed, over samples that ask for no switch and then one that
  -- does and whose switch is recorded: the recorded peak is the running `max` of the extremum kept
  -- since the last switch with all these samples, the last one included, or the recorded trough is
  -- their running `min`, by the sign of the switch; the other list stands, and the extrema start
  -- again from the last sample.
  pub run-Records_extremum :
      (e : MrftEngine F) (ts : List (Tick F)) (t : Tick F)
      → SelfDiffSmall fl
      → Inv fl e
      → e.completed ≡ false
      → NoneNeeded e ts
      → (switch_is_needed fl (run fl e ts).0 t).1 ≡ true
      → (run fl e ts).0.num_switches_skip ≤ (run fl e ts).0.counter_all_switches + 1
      → let w = (run fl e ts).0 in
        let pvs = map (λ (u : Tick F). u.pv) ts in
        let sign = (switch_is_needed fl w t).0.mv_sign_next_step in
        Records
          (is_peak sign w.action_multiplier)
          e.peaks
          e.troughs
          (foldl fl.max e.max_pv_result pvs)
          (foldl fl.min e.min_pv_result pvs)
          t.pv
          (step fl w t).0
  run-Records_extremum e ts t small i o none needed due =
      let (hi, lo, ps, qs, d) = run-Window e ts small i o none in
      let w = (run fl e ts).0 in
      let (p, q, m, n) = switch-Records w t (run-Inv fl e ts small i) (d ∙ o) needed due in
      let peak = is_peak (switch_is_needed fl w t).0.mv_sign_next_step w.action_multiplier in
      (
        p ∙ ap₂ (λ l x. if peak then push l (fl.max x t.pv) else l) ps hi,
        q ∙ ap₂ (λ l x. if peak then l else push l (fl.min x t.pv)) qs lo,
        m,
        n,
      )
