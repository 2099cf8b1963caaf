-- ===== src/Mrft/Progress.antt =====
-- Liveness: samples that each ask for a switch complete the test.
use bhtune.Common.{
  ◌+◌, ◌≤◌, ◌≡◌, sym, ap, ◌∙◌, true, false, Bool-cases, inl, inr, leb_iff, arith, List, [], ◌∷◌,
  length, true≢false,
}
use bhtune.Float.{Floats, SelfDiffSmall}
use bhtune.Mrft.Engine.{
  MrftEngine, Tick, track, switch_is_needed, record_switch, perform_switch, step, run,
}
use bhtune.Mrft.Cases.{step_cases, finish_cases}
use bhtune.Mrft.Frame.{settings-step}
use bhtune.Mrft.Counting.{total_switches, Inv, step-Inv}

module _ {F D : Type 0} (fl : Floats F D) where
  -- Every sample asks for a switch, at the state that the engine has reached by then.
  abbrev pub EachNeeded : MrftEngine F → List (Tick F) → Type 0
  EachNeeded e [] = Unit
  EachNeeded e (t ∷ ts) = ((switch_is_needed fl e t).1 ≡ true) × EachNeeded (step fl e t).0 ts

  needed_counts :
      (e : MrftEngine F) (t : Tick F)
      → Inv fl e
      → e.completed ≡ false
      → (switch_is_needed fl e t).1 ≡ true
      → (step fl e t).0.counter_all_switches ≡ e.counter_all_switches + 1
  needed_counts e t (c, s) o needed =
      step_cases fl (λ r. r.0.counter_all_switches ≡ e.counter_all_switches + 1) e t
        (λ done. absurd (true≢false (sym done ∙ o)))
        (λ _ _.
          finish_cases fl (λ r. r.0.counter_all_switches ≡ e.counter_all_switches + 1) _ _
            (λ _. one_more) (λ _. one_more))
        (λ _ idle. absurd (true≢false (sym needed ∙ idle)))
    where
      one_more :
          (perform_switch fl (switch_is_needed fl e t).0 t).0.counter_all_switches
          ≡ e.counter_all_switches + 1
      one_more =
          unfold perform_switch record_switch switch_is_needed track in
          omega (arith, c.total_small, c.counter_le)

  -- From an engine in order, as many samples as it has switches left, each of which asks for a
  -- switch, complete the test.
  pub run_completes :
      (e : MrftEngine F) (ts : List (Tick F))
      → SelfDiffSmall fl
      → Inv fl e
      → e.counter_all_switches + length ts ≡ total_switches e
      → EachNeeded e ts
      → (run fl e ts).0.completed ≡ true
  unfolding run
  run_completes e [] small (c, s) left asks = s ∙ (leb_iff _ _).1 (omega arith)
  run_completes e (t ∷ ts) small i left (needed, asks) = elim (Bool-cases e.completed) [
    | inl done ↦ absurd (overrun ((leb_iff _ _).0 (sym i.1 ∙ done)))
    | inr o ↦
        run_completes (step fl e t).0 ts small (step-Inv fl e t small i)
          (omega (
            arith,
            needed_counts e t i o needed,
            ap (λ s. s.num_switches_skip) (settings-step fl e t),
            ap (λ s. s.num_cycles_count) (settings-step fl e t),
          ))
          asks
  ]
    where
      overrun : total_switches e ≤ e.counter_all_switches → ⊥
      overrun h = absurd (omega arith)
