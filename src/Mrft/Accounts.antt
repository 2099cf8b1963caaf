-- ===== src/Mrft/Accounts.antt =====
-- A whole run: how many writes and completions it asks for, and what its completion carries.
use bhtune.Common.{
  ℕ, suc, ◌+◌, ◌*◌, ◌≤◌, ◌≡◌, refl, ap, inl, inr, Bool, false, ◌==◌, if◌then◌else◌, arith, List, [],
  ◌∷◌, ◌++◌,
}
use bhtune.Float.{Floats, SelfDiffSmall}
use bhtune.Process.{ControllerDirection}
use bhtune.LoopConfig.{LoopConfig}
use bhtune.Mrft.Engine.{
  MrftEngine, Tick, InitialReadings, Action, write_mv, complete, step, run, new,
}
use bhtune.Mrft.Frame.{settings-run}
use bhtune.Mrft.Counting.{total_switches, Inv, IsCountable, step-Inv, run-Inv, new-Inv}
use bhtune.Mrft.Actions.{StepShape, step-StepShape}

abbrev pub count_writes : {F : Type 0} → List (Action F) → ℕ
count_writes [] = 0
count_writes (write_mv _ ∷ as') = suc (count_writes as')
count_writes (complete _ ∷ as') = count_writes as'

abbrev pub count_completions : {F : Type 0} → List (Action F) → ℕ
count_completions [] = 0
count_completions (write_mv _ ∷ as') = count_completions as'
count_completions (complete _ ∷ as') = suc (count_completions as')

abbrev pub one_if : Bool → ℕ
one_if b = if b then 1 else 0

count_writes-append :
    {F : Type 0} (xs ys : List (Action F))
    → count_writes (xs ++ ys) ≡ count_writes xs + count_writes ys
count_writes-append [] ys = omega arith
count_writes-append (write_mv _ ∷ xs) ys = omega (arith, count_writes-append xs ys)
count_writes-append (complete _ ∷ xs) ys = count_writes-append xs ys

count_completions-append :
    {F : Type 0} (xs ys : List (Action F))
    → count_completions (xs ++ ys) ≡ count_completions xs + count_completions ys
count_completions-append [] ys = omega arith
count_completions-append (write_mv _ ∷ xs) ys = count_completions-append xs ys
count_completions-append (complete _ ∷ xs) ys = omega (arith, count_completions-append xs ys)

module _ {F D : Type 0} (fl : Floats F D) where
  -- The switches and the completions that a stretch of the run adds.
  abbrev Adds : MrftEngine F → MrftEngine F × List (Action F) → Type 0
  Adds e r =
      (count_writes r.1 + e.counter_all_switches ≡ r.0.counter_all_switches)
      × (count_completions r.1 + one_if e.completed ≡ one_if r.0.completed)

  shape-Adds : (e : MrftEngine F) (r : MrftEngine F × List (Action F)) → StepShape fl e r → Adds e r
  shape-Adds e r (inl (a, _, c, d)) = ground (arith, ap count_writes a, ap count_completions a)
  shape-Adds e r (inr (inl (a, _, c, o, d))) =
      ground (arith, ap count_writes a, ap count_completions a)
  shape-Adds e r (inr (inr (a, _, c, _, o, d))) =
      ground (arith, ap count_writes a, ap count_completions a)

  run-Adds :
      (e : MrftEngine F) (ts : List (Tick F)) → SelfDiffSmall fl → Inv fl e → Adds e (run fl e ts)
  unfolding run
  run-Adds e [] small i = omega arith
  run-Adds e (t ∷ ts) small i =
      let here = shape-Adds e (step fl e t) (step-StepShape fl e t small i) in
      let there = run-Adds (step fl e t).0 ts small (step-Inv fl e t small i) in
      omega (
        arith,
        here,
        there,
        count_writes-append (step fl e t).1 (run fl (step fl e t).0 ts).1,
        count_completions-append (step fl e t).1 (run fl (step fl e t).0 ts).1,
      )

  module _ (config : LoopConfig F) (direction : ControllerDirection) (beta : F)
      (initial : InitialReadings F) (start_time : ℕ) where
    abbrev fresh : MrftEngine F
    fresh = new fl config direction beta initial start_time

    pub total_switches-new :
        IsCountable config
        → (ticks : List (Tick F))
        → total_switches (run fl fresh ticks).0
          ≡ config.num_cycles_skip * 2 + 1 + config.num_cycles_count * 2
    unfolding new
    total_switches-new c ticks = omega (
      arith,
      ap (λ s. s.num_switches_skip) (settings-run fl fresh ticks),
      ap (λ s. s.num_cycles_count) (settings-run fl fresh ticks),
    )

    fresh_open : (fresh.counter_all_switches ≡ 0) × (fresh.completed ≡ false)
    unfolding new
    fresh_open = (refl, refl)

    -- Whatever the samples, the engine of a countable configuration asks for at most
    -- 2 * skip + 1 + 2 * count writes, as many as its switch counter says; it is completed exactly
    -- when it has asked for them all, and then it has completed once, otherwise never.
    pub run_accounts :
        (ticks : List (Tick F))
        → SelfDiffSmall fl
        → IsCountable config
        → let total = config.num_cycles_skip * 2 + 1 + config.num_cycles_count * 2 in
          let (e, actions) = run fl fresh ticks in
          (count_writes actions ≡ e.counter_all_switches)
          × (count_writes actions ≤ total)
          × (e.completed ≡ (count_writes actions == total))
          × (count_completions actions ≡ (if count_writes actions == total then 1 else 0))
    run_accounts ticks small c =
        let i = new-Inv fl config direction beta initial start_time c in
        ground (
          arith,
          run-Adds fresh ticks small i,
          run-Inv fl fresh ticks small i,
          (run-Inv fl fresh ticks small i).0.counter_le,
          total_switches-new c ticks,
          fresh_open,
        )
