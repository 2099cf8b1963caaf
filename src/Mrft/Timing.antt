-- ===== src/Mrft/Timing.antt =====
-- Noise protection: consecutive recorded switches are at least the protection time apart.
use bhtune.Common.{
  ℕ, ◌+◌, ◌-◌, ◌*◌, ◌≤◌, ◌<◌, ◌≡◌, refl, sym, ap, ◌∙◌, ◌⊎◌, inl, inr, Bool, true, ◌||◌, &&_iff,
  leb_iff, ◌==◌, arith, List, [], ◌∷◌, length, push, subst, if_cases,
}
use bhtune.Float.{Floats, SelfDiffSmall}
use bhtune.Process.{ControllerDirection}
use bhtune.LoopConfig.{LoopConfig}
use bhtune.Mrft.Engine.{
  MrftEngine, Tick, InitialReadings, seconds, track, switch_is_needed, record_switch,
  perform_switch, step, run, new,
}
use bhtune.Mrft.Cases.{step_cases, finish_cases}
use bhtune.Mrft.Counting.{
  total_switches, Counts, Inv, IsCountable, open-lt, step-Inv, run-Inv, new-Inv,
}
use bhtune.Mrft.Frame.{settings-run}
use bhtune.Tuning.Measure.{span, last_of}
use bhtune.Common.Int.{pos}

-- Each instant is at least `gap` behind the one before it.
abbrev pub Spaced : ℕ → List ℕ → Type 0
Spaced gap [] = Unit
Spaced gap (t ∷ []) = Unit
Spaced gap (t ∷ (u ∷ us)) = (t + gap ≤ u) × Spaced gap (u ∷ us)

-- `b` follows every instant of the list by `gap`, if it follows the last one so.
abbrev pub Follows : ℕ → List ℕ → ℕ → Type 0
Follows gap [] b = Unit
Follows gap (t ∷ []) b = t + gap ≤ b
Follows gap (t ∷ (u ∷ us)) b = Follows gap (u ∷ us) b

Spaced-push :
    (gap : ℕ) (ts : List ℕ) (t : ℕ) → Spaced gap ts → Follows gap ts t → Spaced gap (push ts t)
Spaced-push gap [] t s f = tt
Spaced-push gap (a ∷ []) t s f = (f, tt)
Spaced-push gap (a ∷ (b ∷ ts)) t s f = (s.0, Spaced-push gap (b ∷ ts) t s.1 f)

-- A recorded list ends at `b`, or is empty.
abbrev EndsAt : List ℕ → ℕ → Type 0
EndsAt [] b = Unit
EndsAt (t ∷ []) b = t ≡ b
EndsAt (t ∷ (u ∷ us)) b = EndsAt (u ∷ us) b

EndsAt-push : (ts : List ℕ) (t : ℕ) → EndsAt (push ts t) t
EndsAt-push [] t = refl
EndsAt-push (a ∷ []) t = refl
EndsAt-push (a ∷ (b ∷ ts)) t = EndsAt-push (b ∷ ts) t

EndsAt-Follows : (gap : ℕ) (ts : List ℕ) (b t : ℕ) → EndsAt ts b → b + gap ≤ t → Follows gap ts t
EndsAt-Follows gap [] b t e h = tt
EndsAt-Follows gap (a ∷ []) b t e h = omega arith
EndsAt-Follows gap (a ∷ (c ∷ ts)) b t e h = EndsAt-Follows gap (c ∷ ts) b t e h

-- From the first to the last of `n + 1` instants there are at least `n` gaps.
pub Spaced-last_of :
    (gap t : ℕ) (ts : List ℕ) → Spaced gap (t ∷ ts) → t + length ts * gap ≤ last_of t ts
Spaced-last_of gap t [] s = omega arith
Spaced-last_of gap t (u ∷ ts) s = omega (arith, Spaced-last_of gap u ts s.1)

span_of_Spaced :
    (gap n : ℕ) (ts : List ℕ)
    → Spaced gap ts
    → length ts ≡ n + 1
    → (d : ℕ) × (span ts ≡ pos d) × (n * gap ≤ d)
span_of_Spaced gap n [] s e = absurd (omega arith)
span_of_Spaced gap n (t ∷ ts) s e =
    let same : length ts ≡ n = omega arith in
    let far : n * gap ≤ last_of t ts - t =
      subst (λ k. k * gap ≤ last_of t ts - t) same (omega (arith, Spaced-last_of gap t ts s)) in
    (last_of t ts - t, ground (arith, Spaced-last_of gap t ts s), far)

abbrev pub gap_of : {F : Type 0} → MrftEngine F → ℕ
gap_of e = seconds e.noise_protection_secs

abbrev Timed : {F : Type 0} → MrftEngine F → Type 0
Timed e = Spaced (gap_of e) e.switch_times × EndsAt e.switch_times e.time_previous_switch

empty_of_length : {A : Type 0} (xs : List A) → length xs ≡ 0 → xs ≡ []
empty_of_length [] h = refl
empty_of_length (x ∷ xs) h = absurd (omega arith)

module _ {F D : Type 0} (fl : Floats F D) where
  -- The guard of a switch puts it behind every recorded one.
  switch-Follows :
      (e : MrftEngine F) (t : Tick F)
      → Counts fl e
      → (switch_is_needed fl e t).1 ≡ true
      → Timed e
      → Follows (gap_of e) e.switch_times t.time
  unfolding switch_is_needed
  switch-Follows e t c needed (s, ends) =
      elim (enabled (e.counter_all_switches == 0) ((&&_iff _ _).0 needed).1) [
        | inl waited ↦
            EndsAt-Follows (gap_of e) e.switch_times _ t.time ends ((leb_iff _ _).0 waited)
        | inr first ↦
            subst (λ ts. Follows (gap_of e) ts t.time)
              (sym (empty_of_length e.switch_times (ground (arith, c.times_length, c.skip_odd)))) tt
      ]
    where
      enabled : {a : Bool} (b : Bool) → (a || b) ≡ true → (a ≡ true) ⊎ (b ≡ true)
      enabled b h = ground arith

  switch-Timed :
      (e : MrftEngine F) (t : Tick F)
      → Counts fl e
      → e.counter_all_switches < total_switches e
      → (switch_is_needed fl e t).1 ≡ true
      → Timed e
      → Timed (perform_switch fl (switch_is_needed fl e t).0 t).0
  unfolding perform_switch record_switch switch_is_needed track
  switch-Timed e t c lt needed timed =
      if_cases (λ ts. Spaced (gap_of e) ts × EndsAt ts t.time) _ _ _
        (λ _. (
          Spaced-push (gap_of e) e.switch_times t.time timed.0 (switch-Follows e t c needed timed),
          EndsAt-push e.switch_times t.time,
        ))
        (λ skipped.
          subst (λ ts. Spaced (gap_of e) ts × EndsAt ts t.time)
            (sym (empty_of_length e.switch_times (ground (arith, c.times_length, c.total_small))))
            (tt, tt))

  step-Timed : (e : MrftEngine F) (t : Tick F) → Inv fl e → Timed e → Timed (step fl e t).0
  step-Timed e t (c, s) timed =
      step_cases fl (λ r. Timed r.0) e t (λ _. timed)
        (λ o needed.
          let after = switch-Timed e t c (open-lt fl e s o) needed timed in
          finish_cases fl (λ r. Timed r.0) _ _ (λ _. after) (λ _. after))
        (λ o idle.
          finish_cases fl (λ r. Timed r.0) _ _ (λ _. unfold switch_is_needed track in timed)
            (λ _. unfold switch_is_needed track in timed))

  run-Timed :
      (e : MrftEngine F) (ts : List (Tick F))
      → SelfDiffSmall fl
      → Inv fl e
      → Timed e
      → Timed (run fl e ts).0
  unfolding run
  run-Timed e [] small i timed = timed
  run-Timed e (t ∷ ts) small i timed =
      run-Timed (step fl e t).0 ts small (step-Inv fl e t small i) (step-Timed e t i timed)

  -- Whatever the instants of the samples, in order or not, the recorded switch times of a countable
  -- configuration's run are each at least `noise_protection_secs` behind the one before.
  pub run-new-Spaced :
      (config : LoopConfig F) (direction : ControllerDirection) (beta : F)
      (initial : InitialReadings F) (start_time : ℕ) (ticks : List (Tick F))
      → SelfDiffSmall fl
      → IsCountable config
      → Spaced
          (seconds config.noise_protection_secs)
          (run fl (new fl config direction beta initial start_time) ticks).0.switch_times
  run-new-Spaced config direction beta initial start_time ticks small c =
      let e = new fl config direction beta initial start_time in
      let (spaced, _) =
        run-Timed e ticks small (new-Inv fl config direction beta initial start_time c)
          (unfold new in (tt, tt)) in
      subst (λ n. Spaced (seconds n) (run fl e ticks).0.switch_times)
        (ap (λ s. s.noise_protection_secs) (settings-run fl e ticks) ∙ (unfold new in refl)) spaced

  -- A completed run of a countable configuration lasted, from its first to its last recorded switch
  -- and in nanoseconds, at least 2 * num_cycles_count times `noise_protection_secs`; so the elapsed
  -- time that `measure_oscillation` starts from is not negative.
  pub run-new_lasts :
      (config : LoopConfig F) (direction : ControllerDirection) (beta : F)
      (initial : InitialReadings F) (start_time : ℕ) (ticks : List (Tick F))
      → SelfDiffSmall fl
      → IsCountable config
      → (run fl (new fl config direction beta initial start_time) ticks).0.completed ≡ true
      → (d : ℕ) × (span
            (run fl (new fl config direction beta initial start_time) ticks).0.switch_times
          ≡ pos d)
        × (config.num_cycles_count * 2 * seconds config.noise_protection_secs ≤ d)
  run-new_lasts config direction beta initial start_time ticks small c done =
      let start = new fl config direction beta initial start_time in
      let (counts, settled) =
        run-Inv fl start ticks small (new-Inv fl config direction beta initial start_time c) in
      let all_made = (leb_iff _ _).0 (sym settled ∙ done) in
      let same : (run fl start ticks).0.num_cycles_count ≡ config.num_cycles_count =
        ap (λ s. s.num_cycles_count) (settings-run fl start ticks) ∙ (unfold new in refl) in
      span_of_Spaced (seconds config.noise_protection_secs) (config.num_cycles_count * 2) _
        (run-new-Spaced config direction beta initial start_time ticks small c)
        (omega (arith, counts.times_length, counts.counter_le, counts.skip_odd, all_made, same))
