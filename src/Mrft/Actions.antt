-- ===== src/Mrft/Actions.antt =====
-- What the engine asks its caller to do, step by step.
use bhtune.Common.{
  ◌+◌, ◌<◌, ◌≡◌, refl, sym, ◌∙◌, ◌⊎◌, inl, inr, true, false, leb_iff, arith, List, [], ◌∷◌,
}
use bhtune.Common.Int.{ℤ}
use bhtune.Common.Word.{u32, i32_bound}
use bhtune.Float.{Floats, SelfDiffSmall}
use bhtune.Mrft.Engine.{
  MrftEngine, Tick, Action, write_mv, complete, completion, track, relay_level, switch_is_needed,
  record_switch, perform_switch, is_complete, step,
}
use bhtune.Mrft.Cases.{step_cases, finish_cases}
use bhtune.Mrft.Counting.{
  sign_at, total_switches, Counts, Inv, open-lt, seen-switch, cycles_remaining_lem, is_complete_lem,
}

module _ {F D : Type 0} (fl : Floats F D) where
  -- Nothing is asked, and the MV stands.
  abbrev pub Idle : MrftEngine F → MrftEngine F × List (Action F) → Type 0
  Idle e r =
      (r.1 ≡ [])
      × (r.0.mv_value_current ≡ e.mv_value_current)
      × (r.0.counter_all_switches ≡ e.counter_all_switches)
      × (r.0.completed ≡ e.completed)

  -- One relay step to the level whose sign alternates with the switch counter.
  abbrev pub Relay : MrftEngine F → MrftEngine F × List (Action F) → Type 0
  Relay e r =
      let level = relay_level fl e (sign_at r.0.mv_sign_init r.0.counter_all_switches) in
      (r.1 ≡ write_mv level ∷ [])
      × (r.0.mv_value_current ≡ level)
      × (r.0.counter_all_switches ≡ e.counter_all_switches + 1)
      × (e.completed ≡ false)
      × (r.0.completed ≡ false)

  -- The last switch: the MV goes back to its initial value, and the result is handed over.
  abbrev pub SnapBack : MrftEngine F → MrftEngine F × List (Action F) → Type 0
  SnapBack e r =
      (r.1 ≡ write_mv e.mv_value_ini ∷ complete (completion r.0) ∷ [])
      × (r.0.mv_value_current ≡ e.mv_value_ini)
      × (r.0.counter_all_switches ≡ e.counter_all_switches + 1)
      × (r.0.counter_all_switches ≡ total_switches e)
      × (e.completed ≡ false)
      × (r.0.completed ≡ true)

  abbrev pub StepShape : MrftEngine F → MrftEngine F × List (Action F) → Type 0
  StepShape e r = Idle e r ⊎ Relay e r ⊎ SnapBack e r

  -- The switch that reaches the total writes the initial MV back.
  perform_switch_back :
      (e : MrftEngine F) (t : Tick F)
      → total_switches e + 1 < i32_bound
      → e.counter_all_switches + 1 ≡ total_switches e
      → (perform_switch fl e t).1 ≡ e.mv_value_ini
  unfolding perform_switch
  perform_switch_back e t small last = ground (
    arith,
    cycles_remaining_lem
        (record e {
          time_previous_switch = t.time;
          counter_all_switches = u32 (e.counter_all_switches + 1);
        })
        small (omega arith),
  )

  -- The MV that a switch writes.
  module _ (e : MrftEngine F) (t : Tick F) (small : SelfDiffSmall fl) (i : Inv fl e)
      (o : e.completed ≡ false) (needed : (switch_is_needed fl e t).1 ≡ true) where
    abbrev switched : MrftEngine F × F
    switched = perform_switch fl (switch_is_needed fl e t).0 t

    counts : Counts fl switched.0
    counts = seen-switch fl e t small i o needed

    counted_up : switched.0.counter_all_switches ≡ e.counter_all_switches + 1
    unfolding perform_switch record_switch switch_is_needed track
    counted_up = omega (arith, i.0.total_small, i.0.counter_le)

    current : switched.0.mv_value_current ≡ switched.1
    unfolding perform_switch
    current = refl

    same_level : (s : ℤ) → relay_level fl switched.0 s ≡ relay_level fl e s
    unfolding perform_switch record_switch switch_is_needed track relay_level
    same_level s = refl

    switched_relay :
        is_complete switched.0 ≡ false
        → switched.1
          ≡ relay_level fl e (sign_at switched.0.mv_sign_init switched.0.counter_all_switches)
    switched_relay d =
        sym current
        ∙ counts.at_level (omega (arith, counted_up))
            (ground (arith, is_complete_lem switched.0 counts.total_small, counts.counter_le))
        ∙ same_level _

    same_total : total_switches switched.0 ≡ total_switches e
    unfolding perform_switch record_switch switch_is_needed track
    same_total = refl

    at_end : is_complete switched.0 ≡ true → e.counter_all_switches + 1 ≡ total_switches e
    at_end d =
        let reached = (leb_iff _ _).0 (sym (is_complete_lem switched.0 counts.total_small) ∙ d) in
        omega (arith, reached, counted_up, counts.counter_le, same_total)

    switched_back : is_complete switched.0 ≡ true → switched.1 ≡ e.mv_value_ini
    unfolding switch_is_needed track
    switched_back d = perform_switch_back (switch_is_needed fl e t).0 t i.0.total_small (at_end d)

    still_open : switched.0.completed ≡ false
    unfolding perform_switch record_switch switch_is_needed track
    still_open = o

  idle_open :
      (e : MrftEngine F) (t : Tick F)
      → Inv fl e
      → e.completed ≡ false
      → is_complete (switch_is_needed fl e t).0 ≡ true
      → ⊥
  unfolding switch_is_needed track
  idle_open e t (c, s) o d =
      let reached =
        (leb_iff _ _).0 (sym (is_complete_lem (switch_is_needed fl e t).0 c.total_small) ∙ d) in
      absurd (omega (arith, reached, open-lt fl e s o))

  -- A step of an engine in order asks nothing and leaves the MV and the counter, or asks one relay
  -- step whose sign alternates with the switch counter, or, on the last switch of the total, writes
  -- the initial MV back and completes. A switch counts up by one, and only an open engine switches.
  pub step-StepShape :
      (e : MrftEngine F) (t : Tick F) → SelfDiffSmall fl → Inv fl e → StepShape e (step fl e t)
  step-StepShape e t small i =
      step_cases fl (StepShape e) e t (λ _. inl (refl, refl, refl, refl))
        (λ o needed.
          let sw = switched e t small i o needed in
          let mv = current e t small i o needed in
          let up = counted_up e t small i o needed in
          finish_cases fl (StepShape e) sw.0 (write_mv sw.1 ∷ [])
            (λ d.
              let back = switched_back e t small i o needed d in
              inr (inr (cc back, mv ∙ back, up, up ∙ at_end e t small i o needed d, o, refl)))
            (λ d.
              let level = switched_relay e t small i o needed d in
              inr (inl (cc level, mv ∙ level, up, o, still_open e t small i o needed))))
        (λ o idle.
          finish_cases fl (StepShape e) (switch_is_needed fl e t).0 []
            (λ d. absurd (idle_open e t i o d))
            (λ d. inl (unfold switch_is_needed track in (refl, refl, refl, refl))))
