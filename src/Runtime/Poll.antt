-- ===== src/Runtime/Poll.antt =====
-- tune/poll.rs: the polling loop, as it awaits. `PollState` is what the loop and its arguments hold,
-- `tick_body` the branch of a poll, `round` one turn of the loop and `polling_rounds` the loop on
-- fuel. Log messages and the observation of call durations are left out.
pub mod Read
pub mod Stepping
pub mod Body
pub mod Loop
pub mod Trace
pub mod Links
pub mod Ticks
pub mod Safety
pub mod Run
use Prim.Native.String.{String}
use bhtune.Common.{ℕ, ◌+◌, ◌*◌, Bool, true, false, List, [], ◌∷◌, push, Option, none, some}
use bhtune.Common.Text.{Text}
use bhtune.Common.Result.{Result, ok, err, map_err}
use bhtune.Common.Io.{Io, ◌>>=◌, ◌>>◌, pure, throw, modify}
use bhtune.Mrft.Engine.{Tick, MrftEngine, Completion, MrftState}
use bhtune.Runtime.Outcome.{AbortReason}
use bhtune.Runtime.Quality.{SampleQuality}
use bhtune.Runtime.Timing.{
  TickTimeSource, TimeRange, PollTimingAccumulator, TimingError, next_timestamp_at, observe,
}
use bhtune.Runtime.World.{
  World, Link, RunError, external, time_out_of_range, sample_inserted, instant_now,
}

-- The frozen settings of a run that the loop reads.
pub record PollSettings : Type 0 where
  pub mrft_delay_secs : ℕ
  pub poll_interval_ms : ℕ
  pub timeout_secs : ℕ
  pub op_timeout_secs : ℕ
  pub noise_protection_secs : ℕ
  pub allow_uncertain_quality : Bool
  pub process_variable : Text
  pub manipulated_variable : Text
  pub start_time : ℕ

pub record PollState (W F : Type 0) : Type 0 where
  pub link : Link W F
  pub engine : MrftEngine F
  -- `guard.mv_written`.
  pub mv_attempted : Bool
  pub tick_time : TickTimeSource
  pub timing : PollTimingAccumulator
  pub next_poll_at : ℕ
  pub tick_index : ℕ
  pub completion : Option (Completion F)
  pub post_delay_end : Option ℕ

pub record CompletedPoll (F : Type 0) : Type 0 where
  pub action : Completion F
  pub state : MrftState F
  pub next_tick_index : ℕ
  pub tick_time : TickTimeSource

pub data PollOutcome (F : Type 0) : Type 0 where
  poll_completed : CompletedPoll F → PollOutcome F
  poll_aborted : AbortReason F → PollOutcome F

-- Code on the link, as code on the whole state.
abbrev pub on_link : {W F E A : Type 0} → Io (Link W F) E A → Io (PollState W F) E A
on_link m s = let (r, l) = m s.link in (r, record s { link = l })

module _ {W F E : Type 0} (env : World W F E) where
  -- `insert_tune_sample_with_timing`.
  unfoldable pub insert_tune_sample :
      ℕ → Tick F → MrftState F → SampleQuality → Io (Link W F) (RunError E) (Unit {0})
  insert_tune_sample index tick state quality s =
      let (r, w) = env.insert_sample s.world index tick state quality in
      (
        map_err external r,
        record s { world = w; trace = push s.trace (sample_inserted index tick state quality) },
      )

  -- `tick_time.next_timestamp()?` and `timing.observe(now)?`.
  unfoldable pub next_timestamp : TimeRange → Io (PollState W F) (RunError E) ℕ
  unfolding instant_now next_timestamp_at
  next_timestamp range = do
    now ← on_link (instant_now env)
    (λ s. elim (next_timestamp_at range s.tick_time now) [
      | err _ ↦ (err time_out_of_range, s)
      | ok (t, source) ↦ (ok t, record s { tick_time = source })
    ])

  unfoldable pub observe_gap : ℕ → Io (PollState W F) (RunError E) (Unit {0})
  unfolding observe
  observe_gap t s = elim (observe s.timing t) [
    | err _ ↦ (err time_out_of_range, s)
    | ok timing ↦ (ok tt, record s { timing = timing })
  ]
