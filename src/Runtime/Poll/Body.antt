-- ===== src/Runtime/Poll/Body.antt =====
-- The branch of `run_polling_loop_with_timing` that polls: the read, the time of the sample and the
-- checks on it before the engine's step.
use bhtune.Common.{ℕ, ◌+◌, Bool, true, false, ◌&&◌, ltb, Option, none, some, if◌then◌else◌}
use bhtune.Common.Text.{Text, Chars}
use bhtune.Common.Result.{Result, ok, err}
use bhtune.Common.Io.{Io, ◌>>=◌, ◌>>◌, pure, gets, modify}
use bhtune.Float.{Floats}
use bhtune.Mrft.Engine.{Tick, state, seconds}
use bhtune.Template.{is_none}
use bhtune.Runtime.Outcome.{Quality, AbortReason, quality_rejected}
use bhtune.Runtime.Quality.{SampleQuality, sample_quality_from_driver, check_quality}
use bhtune.Runtime.Timing.{TimeRange, milliseconds}
use bhtune.Runtime.World.{World, RunError, instant_now}
use bhtune.Runtime.Poll.{PollSettings, PollState, on_link, next_timestamp, observe_gap}
use bhtune.Runtime.Poll.Read.{PollRead, sampled, read_aborted, poll_read}
use bhtune.Runtime.Poll.Stepping.{
  Next, next_round, return_aborted, store_sample, advance, step_tick,
}

abbrev pub is_err : {E A : Type 0} → Result E A → Bool
is_err (ok _) = false
is_err (err _) = true

module _ {W F D E : Type 0} (env : World W F E) (fl : Floats F D) (ch : Chars)
    (parse : Text → Option F) (range : TimeRange) (cfg : PollSettings) where
  -- A sample of good quality: it ends the run with its reason, waits for the engine to start, or is
  -- stepped on.
  unfoldable pub use_sample :
      Tick F
      → SampleQuality
      → ℕ
      → Bool
      → Option (AbortReason F)
      → Io (PollState W F) (RunError E) (Next F)
  unfolding store_sample step_tick state
  use_sample tick quality observed evidence (some reason) = do
    s ← gets (λ s. s.engine)
    store_sample env fl ch parse range cfg tick (state fl s) quality
    pure (return_aborted reason)
  use_sample tick quality observed evidence none = do
    s ← gets (λ s. s)
    let waits = (do
      store_sample env fl ch parse range cfg tick (state fl s.engine) quality
      advance env fl ch parse range cfg
      pure next_round)
    (if is_none s.completion && ltb tick.time (cfg.start_time + seconds cfg.mrft_delay_secs)
        then waits
        else step_tick env fl ch parse range cfg tick quality observed evidence)

  -- The quality of a sample that has its time.
  unfoldable pub check_sample :
      Tick F
      → Quality
      → ℕ
      → Bool
      → Option (AbortReason F)
      → Io (PollState W F) (RunError E) (Next F)
  unfolding sample_quality_from_driver check_quality store_sample use_sample state
  check_sample tick quality observed evidence mv_abort =
      let sample_quality = sample_quality_from_driver quality in
      let rejected = (do
        s ← gets (λ s. s.engine)
        store_sample env fl ch parse range cfg tick (state fl s) sample_quality
        pure (return_aborted (quality_rejected cfg.process_variable quality))) in
      if is_err (check_quality {E = E} cfg.process_variable quality cfg.allow_uncertain_quality)
      then rejected
      else use_sample tick sample_quality observed evidence mv_abort

  unfoldable pub sample_tick :
      F → Quality → Bool → Option (AbortReason F) → Io (PollState W F) (RunError E) (Next F)
  unfolding instant_now next_timestamp observe_gap check_sample
  sample_tick pv quality evidence mv_abort = do
    observed ← on_link (instant_now env)
    now ← next_timestamp env range
    observe_gap env now
    check_sample (record { time = now; pv = pv }) quality observed evidence mv_abort

  unfoldable pub use_read : PollRead F → Io (PollState W F) (RunError E) (Next F)
  unfolding sample_tick
  use_read (read_aborted reason) = pure (return_aborted reason)
  use_read (sampled pv quality evidence mv_abort) = sample_tick pv quality evidence mv_abort

  unfoldable pub tick_body : Io (PollState W F) (RunError E) (Next F)
  unfolding instant_now poll_read use_read
  tick_body = do
    now ← on_link (instant_now env)
    modify (λ s. record s { next_poll_at = now + milliseconds cfg.poll_interval_ms })
    read ← poll_read env fl ch parse range cfg
    use_read read
