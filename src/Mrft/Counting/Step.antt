-- ===== src/Mrft/Counting/Step.antt =====
-- Every step keeps the counts, and so does a run.
use bhtune.Common.{
  ℕ, ◌+◌, ◌-◌, ◌/◌, ◌≤◌, ◌<◌, ◌≡◌, refl, inl, inr, true, false, leb, arith, List, [], ◌∷◌, sym, ◌∙◌,
}
use bhtune.Common.Int.{pos}
use bhtune.Common.Word.{as_i32, i32_bound, u32}
use bhtune.Float.{Floats, SelfDiffSmall}
use bhtune.Process.{ControllerDirection, action_multiplier, direct, reverse}
use bhtune.LoopConfig.{LoopConfig}
use bhtune.Mrft.Engine.{
  MrftEngine, Tick, InitialReadings, Action, new, track, relay_level, switch_is_needed,
  record_switch, perform_switch, cycles_remaining, is_complete, finish, step, run,
}
use bhtune.Mrft.Cases.{step_cases, finish_cases}
use bhtune.Mrft.Counting.Defs.{
  IsSign, Inv, IsCountable, sign_at, total_switches, recorded, Counts, Settled,
}
use bhtune.Mrft.Counting.Switch.{switch_alternates, record_switch-Lengths, Lengths}

-- The bits of `skip + 2 * count - counter + 1` do not wrap, and its half is 0 only at the end.
pub cycles_remaining_lem :
    {F : Type 0} (e : MrftEngine F)
    → total_switches e + 1 < i32_bound
    → e.counter_all_switches ≤ total_switches e
    → cycles_remaining e ≡ pos ((total_switches e + 1 - e.counter_all_switches) / 2)
unfolding cycles_remaining as_i32
cycles_remaining_lem e small le = ground arith

pub is_complete_lem :
    {F : Type 0} (e : MrftEngine F)
    → total_switches e + 1 < i32_bound
    → is_complete e ≡ leb (total_switches e) e.counter_all_switches
unfolding is_complete
is_complete_lem e small = ground arith

action_multiplier-IsSign : (d : ControllerDirection) → IsSign (action_multiplier d)
unfolding action_multiplier
action_multiplier-IsSign direct = inr refl
action_multiplier-IsSign reverse = inl refl

module _ {F D : Type 0} (fl : Floats F D) where
  -- Looking at a sample changes neither the counts nor the lists.
  pub seen-Counts :
      (e : MrftEngine F) (t : Tick F) → Counts fl e → Counts fl (switch_is_needed fl e t).0
  unfolding switch_is_needed track relay_level
  seen-Counts e t c = record {
    action_sign = c.action_sign;
    skip_odd = c.skip_odd;
    count_pos = c.count_pos;
    total_small = c.total_small;
    counter_le = c.counter_le;
    init_sign = λ h. ground (arith, c.init_sign h);
    at_level = λ h k. ground (arith, c.at_level h k);
    times_length = c.times_length;
    peaks_length = ground (arith, c.peaks_length, c.skip_odd);
    troughs_length = ground (arith, c.troughs_length, c.skip_odd);
  }

  perform_switch-Counts :
      (e : MrftEngine F) (t : Tick F)
      → Counts fl e
      → e.counter_all_switches < total_switches e
      → IsSign e.mv_sign_init
      → e.mv_sign_next_step ≡ sign_at e.mv_sign_init (e.counter_all_switches + 1)
      → e.mv_value_next_step ≡ relay_level fl e e.mv_sign_next_step
      → Counts fl (perform_switch fl e t).0
  unfolding perform_switch record_switch relay_level
  perform_switch-Counts e t c lt ini sgn next = record {
    action_sign = c.action_sign;
    skip_odd = c.skip_odd;
    count_pos = c.count_pos;
    total_small = c.total_small;
    counter_le = omega (arith, c.total_small);
    init_sign = λ _. ini;
    at_level = λ _ later. ground (
      arith,
      cycles_remaining_lem counted (omega (arith, c.total_small)) (omega (arith, c.total_small)),
    );
    times_length = lengths.0;
    peaks_length = lengths.1;
    troughs_length = lengths.2;
  }
    where
      counted : MrftEngine F
      counted = record e {
        time_previous_switch = t.time;
        counter_all_switches = u32 (e.counter_all_switches + 1);
      }

      lengths : Lengths counted (record_switch fl counted t.time) (recorded counted)
      lengths =
          record_switch-Lengths fl counted t.time e.counter_all_switches c.action_sign ini
            c.skip_odd (omega (arith, c.total_small)) sgn
            (c.times_length, c.peaks_length, c.troughs_length)

  closed-Counts : (e : MrftEngine F) → Counts fl e → Counts fl (record e { completed = true })
  unfolding relay_level
  closed-Counts e c = record {
    action_sign = c.action_sign;
    skip_odd = c.skip_odd;
    count_pos = c.count_pos;
    total_small = c.total_small;
    counter_le = c.counter_le;
    init_sign = c.init_sign;
    at_level = c.at_level;
    times_length = c.times_length;
    peaks_length = c.peaks_length;
    troughs_length = c.troughs_length;
  }

  finish-Inv :
      (e : MrftEngine F) (actions : List (Action F))
      → Counts fl e
      → e.completed ≡ false
      → Inv fl (finish fl e actions).0
  finish-Inv e actions c o =
      finish_cases fl (λ r. Inv fl r.0) e actions
        (λ d. (closed-Counts e c, sym d ∙ is_complete_lem e c.total_small))
        (λ d. (c, o ∙ sym d ∙ is_complete_lem e c.total_small))

  -- An engine that is not completed has switches left.
  pub open-lt :
      (e : MrftEngine F)
      → Settled e
      → e.completed ≡ false
      → e.counter_all_switches < total_switches e
  open-lt e s o = ground arith

  pub seen-switch :
      (e : MrftEngine F) (t : Tick F)
      → SelfDiffSmall fl
      → Inv fl e
      → e.completed ≡ false
      → (switch_is_needed fl e t).1 ≡ true
      → Counts fl (perform_switch fl (switch_is_needed fl e t).0 t).0
  seen-switch e t small (c, s) o needed =
      let lt = open-lt e s o in
      let (ini, sgn) = switch_alternates fl e t small c lt needed in
      perform_switch-Counts (switch_is_needed fl e t).0 t (seen-Counts e t c)
        (unfold switch_is_needed track in lt) ini (unfold switch_is_needed track in sgn)
        (unfold switch_is_needed track relay_level in refl)

  -- Every step keeps the counts and the flag in order.
  pub step-Inv :
      (e : MrftEngine F) (t : Tick F) → SelfDiffSmall fl → Inv fl e → Inv fl (step fl e t).0
  step-Inv e t small i =
      step_cases fl (λ r. Inv fl r.0) e t (λ _. i)
        (λ o needed.
          finish-Inv _ _ (seen-switch e t small i o needed)
            (unfold perform_switch record_switch switch_is_needed track in o))
        (λ o idle. finish-Inv _ _ (seen-Counts e t i.0) (unfold switch_is_needed track in o))

  pub run-Inv :
      (e : MrftEngine F) (ts : List (Tick F)) → SelfDiffSmall fl → Inv fl e → Inv fl (run fl e ts).0
  unfolding run
  run-Inv e [] small i = i
  run-Inv e (t ∷ ts) small i = run-Inv (step fl e t).0 ts small (step-Inv e t small i)

  -- A configuration of at least one cycle whose switch count fits an `i32`.
  pub new-Inv :
      (config : LoopConfig F) (direction : ControllerDirection) (beta : F)
      (initial : InitialReadings F) (start_time : ℕ)
      → IsCountable config
      → Inv fl (new fl config direction beta initial start_time)
  unfolding new
  new-Inv config direction beta initial start_time (enough, small) = (
    record {
      action_sign = action_multiplier-IsSign direction;
      skip_odd = omega arith;
      count_pos = enough;
      total_small = omega arith;
      counter_le = omega arith;
      init_sign = λ h. elim h [ ];
      at_level = λ h _. elim h [ ];
      times_length = omega arith;
      peaks_length = ground arith;
      troughs_length = ground arith;
    },
    ground arith,
  )
