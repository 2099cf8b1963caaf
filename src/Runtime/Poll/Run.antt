-- ===== src/Runtime/Poll/Run.antt =====
-- The polling loop as a whole, from a new engine and an empty trace: what holds of it however the
-- process, the database, the clock and the operator behave and wherever the run stops.
use bhtune.Common.{ℕ, ◌≡◌, ◌≢◌, refl, Bool, true, false, List, [], Option, none, some, inl, inr}
use bhtune.Common.Text.{Text, Chars}
use bhtune.Common.Result.{Result, ok, Result-cases}
use bhtune.Common.Io.{Ends, done, stopped, Ends-state, Ends-value}
use bhtune.Float.{Floats, SelfDiffSmall}
use bhtune.Process.{ControllerDirection}
use bhtune.LoopConfig.{LoopConfig}
use bhtune.Range.{PvRange}
use bhtune.Mrft.Engine.{InitialReadings, new}
use bhtune.Mrft.Counting.{IsCountable, new-Inv}
use bhtune.Handoff.{IsMeasured}
use bhtune.Runtime.Actuation.{MvActuationTracker}
use bhtune.Runtime.Timing.{TimeRange, DriverKind, RunTimeAnchor, PollTimingAccumulator, for_driver}
use bhtune.Runtime.World.{World, Link, RunError, Call}
use bhtune.Runtime.Tracking.{pending_in}
use bhtune.Runtime.Poll.{PollSettings, PollOutcome, CompletedPoll, poll_completed}
use bhtune.Runtime.Poll.Loop.{start_polling, run_polling_loop_with_timing}
use bhtune.Runtime.Poll.Trace.{
  Linked, Linked-Held, Commands, untracked, settled, Kept, kept, sample_indices, upto, phase,
  phase_from, overwritten,
}
use bhtune.Runtime.Poll.Safety.{LinkEnded, RunKeeps, RunKeeps-Ended, run_from-RunKeeps}

abbrev is_tracked : {F : Type 0} → Option (MvActuationTracker F) → Bool
is_tracked none = false
is_tracked (some _) = true

quiet-Commands :
    {F : Type 0} (tracker : Option (MvActuationTracker F))
    → pending_in tracker ≡ none
    → Commands [] (is_tracked tracker) tracker
unfolding phase_from
quiet-Commands none quiet = untracked
quiet-Commands (some t) quiet = settled quiet refl

not_overwritten :
    {F : Type 0} {t : Option (MvActuationTracker F)} {trace : List (Call F)}
    → Kept trace true t
    → phase trace ≢ overwritten
not_overwritten (kept h) = h

module _ {W F D E : Type 0} (env : World W F E) (fl : Floats F D) (ch : Chars)
    (parse : Text → Option F) (range : TimeRange) (cfg : PollSettings)
    (direction : ControllerDirection) (config : LoopConfig F) (pv_range : PvRange F) (beta : F)
    (initial : InitialReadings F) (start_time : ℕ) (driver : DriverKind) (anchor : RunTimeAnchor)
    (mv_written : Bool) (timing : PollTimingAccumulator) (world : W) where
  abbrev start_link : Option (MvActuationTracker F) → Link W F
  start_link tracker = record { world = world; trace = []; tracker = tracker }

  -- The loop on a new engine, with `n` turns of fuel.
  abbrev pub run_new :
      ℕ → Option (MvActuationTracker F) → Result (RunError E) (PollOutcome F) × Link W F
  run_new n tracker =
      run_polling_loop_with_timing env fl ch parse range cfg n driver anchor
        (new fl config direction beta initial start_time) mv_written timing (start_link tracker)

  abbrev RunEnds :
      SelfDiffSmall fl
      → Option (MvActuationTracker F)
      → Result (RunError E) (PollOutcome F) × Link W F
      → Type 0
  RunEnds small tracker =
      Ends (RunKeeps env fl ch parse range cfg direction config pv_range (is_tracked tracker) small)
        (LinkEnded env fl ch parse range cfg direction config pv_range (is_tracked tracker) small)

  run_new-RunEnds :
      (n : ℕ) (tracker : Option (MvActuationTracker F)) (small : SelfDiffSmall fl)
      → IsCountable config
      → pending_in tracker ≡ none
      → RunEnds small tracker (run_new n tracker)
  unfolding run_polling_loop_with_timing start_polling sample_indices upto new
  run_new-RunEnds n tracker small c quiet =
      let linked : Linked (is_tracked tracker) 0 tracker [] = record {
        samples = refl;
        commands = quiet-Commands tracker quiet;
      } in
      elim (Result-cases (for_driver range driver anchor cfg.poll_interval_ms)) [
        | inl (source, e) ↦ rw e (
            run_from-RunKeeps env fl ch parse range cfg direction config pv_range
              (is_tracked tracker) small n
              (done {s = start_link tracker} (
                linked,
                record {
                  inv = new-Inv fl config direction beta initial start_time c;
                  matches = (refl, refl);
                  measured = tt;
                },
              )))
        | inr (x, e) ↦ rw e (stopped (0, Linked-Held linked))
      ]

  -- If a run with a new engine and a countable configuration completes, what it completed with is
  -- measured: `measure_oscillation` returns an oscillation on it. The samples stored by then have the
  -- indices 0, 1, ... up to the next index that the outcome carries.
  pub run_new-IsMeasured :
      (n : ℕ) (tracker : Option (MvActuationTracker F))
      → SelfDiffSmall fl
      → IsCountable config
      → pending_in tracker ≡ none
      → (c : CompletedPoll F) → (run_new n tracker).0 ≡ ok (poll_completed c)
      → IsMeasured fl direction config pv_range c.action
        × (sample_indices (run_new n tracker).1.trace ≡ upto c.next_tick_index)
  run_new-IsMeasured n tracker small countable quiet c e =
      let h = Ends-value (run_new-RunEnds n tracker small countable quiet) e in (h.1, h.0.samples)

  -- Wherever a run stops, completed, aborted or failed, the samples handed to the database so far have
  -- the indices 0, 1, ... without a gap and without a repetition.
  pub sample_indices-run_new :
      (n : ℕ) (tracker : Option (MvActuationTracker F))
      → SelfDiffSmall fl
      → IsCountable config
      → pending_in tracker ≡ none
      → (k : ℕ) × (sample_indices (run_new n tracker).1.trace ≡ upto k)
  sample_indices-run_new n tracker small countable quiet =
      Ends-state (λ l. (k : ℕ) × (sample_indices l.trace ≡ upto k))
        (run_new-RunEnds n tracker small countable quiet)
        (λ o l h.
          let held =
            RunKeeps-Ended env fl ch parse range cfg direction config pv_range (is_tracked tracker)
              small o l h in
          (held.0, held.1.samples))
        (λ l h. (h.0, h.1.samples))

  -- With a tracker, wherever a run stops, no MV command was written while an earlier one was still
  -- unconfirmed: between any two writes of the trace stands a final observation that is recorded with
  -- the status confirmed.
  pub phase-run_new :
      (n : ℕ) (t : MvActuationTracker F)
      → SelfDiffSmall fl
      → IsCountable config
      → t.pending ≡ none
      → phase (run_new n (some t)).1.trace ≢ overwritten
  phase-run_new n t small countable quiet =
      Ends-state (λ l. phase l.trace ≢ overwritten)
        (run_new-RunEnds n (some t) small countable quiet)
        (λ o l h.
          not_overwritten
            (RunKeeps-Ended env fl ch parse range cfg direction config pv_range true small o l
              h).1.order)
        (λ l h. not_overwritten h.1.order)
