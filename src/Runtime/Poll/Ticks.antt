-- ===== src/Runtime/Poll/Ticks.antt =====
-- The branch of a poll keeps the invariant of the loop: the trace is in order, the engine is sound, and
-- what it completed with is measured.
pub mod Asked
pub mod Steps
pub mod Polls
use bhtune.Common.{
  ℕ, zero, suc, ◌+◌, ◌≡◌, refl, sym, ◌∙◌, ap, subst, Bool, true, false, not, ◌&&◌, leb, ltb, List,
  [], ◌∷◌, push, Option, none, some, if◌then◌else◌, if_cases, Option-cases, Bool-cases, ◌⊎◌, inl,
  inr,
}
use bhtune.Common.Text.{Text, Chars}
use bhtune.Common.Result.{Result, ok, err, map_err, Result-cases}
use bhtune.Common.Io.{Io, Ends, done, stopped, then_with, Ends-then_with, Ends-weaken, Ends-lift}
use bhtune.Float.{Floats, SelfDiffSmall}
use bhtune.Process.{ControllerDirection}
use bhtune.LoopConfig.{LoopConfig}
use bhtune.Range.{PvRange}
use bhtune.Mrft.Engine.{MrftEngine, MrftState, Completion, Tick, Action, write_mv, complete, step}
use bhtune.Mrft.Counting.{Inv, step-Inv}
use bhtune.Mrft.Actions.{step-StepShape}
use bhtune.Handoff.{IsMeasured, Matches, Matches-step, step-Measured}
use bhtune.Runtime.Quality.{SampleQuality}
use bhtune.Runtime.Actuation.{MvActuationTracker}
use bhtune.Runtime.Timing.{TimeRange, observe, next_timestamp_at}
use bhtune.Runtime.World.{World, Link, RunError, Call}
use bhtune.Runtime.Poll.{
  PollSettings, PollState, on_link, next_timestamp, observe_gap, insert_tune_sample,
}
use bhtune.Runtime.Poll.Stepping.{store_sample, Next, next_round, break_loop, return_aborted}
use bhtune.Runtime.Poll.Trace.{Linked, Held, Linked-Held, Held-sample, Linked-sample}

module _ {W F D E : Type 0} (env : World W F E) (fl : Floats F D) (ch : Chars)
    (parse : Text → Option F) (range : TimeRange) (cfg : PollSettings)
    (direction : ControllerDirection) (config : LoopConfig F) (pv_range : PvRange F)
    (tracked : Bool) where
  abbrev pub MeasuredOption : Option (Completion F) → Type 0
  MeasuredOption none = Unit
  MeasuredOption (some c) = IsMeasured fl direction config pv_range c

  pub record Sound (engine : MrftEngine F) (completion : Option (Completion F)) : Type 0 where
    pub inv : Inv fl engine
    pub matches : Matches fl direction config pv_range engine
    pub measured : MeasuredOption completion

  -- The invariant between two turns of the loop.
  abbrev pub IsGood : PollState W F → Type 0
  IsGood s = Linked tracked s.tick_index s.link.tracker s.link.trace × Sound s.engine s.completion

  -- The sample of the turn is stored.
  abbrev pub IsStored : PollState W F → Type 0
  IsStored s =
      Linked tracked (s.tick_index + 1) s.link.tracker s.link.trace × Sound s.engine s.completion

  abbrev pub IsHeld : PollState W F → Type 0
  IsHeld s = Held tracked s.tick_index s.link.tracker s.link.trace

  -- What holds wherever a run ends.
  abbrev pub IsEnded : PollState W F → Type 0
  IsEnded s = (n : ℕ) × Held tracked n s.link.tracker s.link.trace

  abbrev pub NextKeeps : Next F → PollState W F → Type 0
  NextKeeps next_round s = IsGood s
  NextKeeps break_loop s = IsGood s
  NextKeeps (return_aborted _) s = IsEnded s

  -- Code on the link, for the whole state.
  pub on_link-Ends :
      {A : Type 0} {Q : A → Link W F → Type 0} {R : Link W F → Type 0}
      {Q' : A → PollState W F → Type 0} {R' : PollState W F → Type 0} (s : PollState W F)
      {r : Result (RunError E) A × Link W F}
      → Ends Q R r
      → ((a : A) (l : Link W F) → Q a l → Q' a (record s { link = l }))
      → ((l : Link W F) → R l → R' (record s { link = l }))
      → Ends Q' R' (r.0, record s { link = r.1 })
  on_link-Ends s (done q) k l = done (k _ _ q)
  on_link-Ends s (stopped h) k l = stopped (l _ h)

  module _ (tick : Tick F) (state : MrftState F) (quality : SampleQuality) where
    pub store-Good :
        (s : PollState W F)
        → IsGood s
        → Ends (λ _. IsStored) IsEnded (store_sample env fl ch parse range cfg tick state quality s)
    unfolding store_sample insert_tune_sample
    store-Good s h =
        let stored = Linked-sample s.tick_index tick state quality s.link.trace h.0 in
        elim (Result-cases (env.insert_sample s.link.world s.tick_index tick state quality).0) [
          | inl (a, e) ↦ rw e (done (stored, h.1))
          | inr (a, e) ↦ rw e (stopped (s.tick_index + 1, Linked-Held stored))
        ]

    pub store-Held :
        (s : PollState W F)
        → IsHeld s
        → Ends (λ _. IsEnded) IsEnded (store_sample env fl ch parse range cfg tick state quality s)
    unfolding store_sample insert_tune_sample
    store-Held s h =
        let stored = Held-sample s.tick_index tick state quality s.link.trace h in
        elim (Result-cases (env.insert_sample s.link.world s.tick_index tick state quality).0) [
          | inl (a, e) ↦ rw e (done (s.tick_index + 1, stored))
          | inr (a, e) ↦ rw e (stopped (s.tick_index + 1, stored))
        ]

  -- The timing does not touch the rest of the state.
  module _
      (P : ℕ
        → Option (MvActuationTracker F)
        → List (Call F)
        → MrftEngine F
        → Option (Completion F)
        → Type 0) where
    abbrev Of : PollState W F → Type 0
    Of s = P s.tick_index s.link.tracker s.link.trace s.engine s.completion

    pub next_timestamp-keeps :
        (s : PollState W F) → Of s → Ends (λ _. Of) Of (next_timestamp env range s)
    unfolding next_timestamp
    next_timestamp-keeps s h =
        elim (Result-cases (next_timestamp_at range s.tick_time (env.now s.link.world).0)) [
          | inl (a, e) ↦ rw (next_timestamp, e) (done h)
          | inr (a, e) ↦ rw (next_timestamp, e) (stopped h)
        ]

    pub observe_gap-keeps :
        (t : ℕ) (s : PollState W F) → Of s → Ends (λ _. Of) Of (observe_gap env t s)
    unfolding observe_gap
    observe_gap-keeps t s h = elim (Result-cases (observe s.timing t)) [
      | inl (a, e) ↦ rw (observe_gap, e) (done h)
      | inr (a, e) ↦ rw (observe_gap, e) (stopped h)
    ]
