-- ===== src/Runtime/Poll/Read.antt =====
-- The read of a poll: the batch, the judgement of a pending command by it, and the sample.
use Prim.Native.String.{String}
use bhtune.Common.{Bool, false, ◌&&◌, not, List, [], ◌∷◌, Option, none, some, if◌then◌else◌}
use bhtune.Common.Text.{Text, Chars, text_eq}
use bhtune.Common.Result.{map_err}
use bhtune.Common.Io.{Io, ◌>>=◌, pure, gets, lift}
use bhtune.Float.{Floats}
use bhtune.Template.{is_none}
use bhtune.Runtime.Outcome.{Quality, AbortReason, user_interrupt, operation_timed_out}
use bhtune.Runtime.Quality.{TagValue, read_numeric_from_batch}
use bhtune.Runtime.Actuation.{PendingMvActuation}
use bhtune.Runtime.Timing.{TimeRange}
use bhtune.Runtime.World.{
  World, RunError, reading, TickOperation, op_completed, op_cancelled, op_timed_out, instant_now,
  read_batch, require_invariant,
}
use bhtune.Runtime.Tracking.{checked_at_for_pending, pending_of}
use bhtune.Runtime.Tracking.Reading.{resolve_pending_mv_poll}
use bhtune.Runtime.Poll.{PollSettings, PollState, on_link}

-- What the read of a poll gives: the sample with the evidence on a pending command, or an abort.
pub data PollRead (F : Type 0) : Type 0 where
  sampled : F → Quality → Bool → Option (AbortReason F) → PollRead F
  read_aborted : AbortReason F → PollRead F

module _ {W F D E : Type 0} (env : World W F E) (fl : Floats F D) (ch : Chars)
    (parse : Text → Option F) (range : TimeRange) (cfg : PollSettings) where
  -- `read_poll_batch`'s tags.
  unfoldable pub poll_tags : Bool → List Text
  poll_tags pending =
      if pending && not (text_eq cfg.manipulated_variable cfg.process_variable)
      then cfg.process_variable ∷ cfg.manipulated_variable ∷ []
      else cfg.process_variable ∷ []

  -- The pending command judged by the end of a poll's read.
  unfoldable pub judge_poll :
      PendingMvActuation F
      → TickOperation (Text → Option TagValue)
      → Io (PollState W F) (RunError E) (Option (AbortReason F) × Bool)
  unfolding instant_now checked_at_for_pending
  judge_poll p values = do
    now ← on_link (instant_now env)
    on_link (
        resolve_pending_mv_poll env fl ch parse cfg.manipulated_variable cfg.op_timeout_secs
          cfg.allow_uncertain_quality values (checked_at_for_pending p now) now)

  -- A poll that was interrupted; `plain` is the reason without a pending command.
  unfoldable pub interrupted_poll :
      Option (PendingMvActuation F)
      → TickOperation (Text → Option TagValue)
      → AbortReason F
      → String
      → Io (PollState W F) (RunError E) (PollRead F)
  unfolding judge_poll
  interrupted_poll none values plain message = pure (read_aborted plain)
  interrupted_poll (some p) values plain message = do
    (judged, _) ← judge_poll p values
    reason ← lift (require_invariant judged message)
    pure (read_aborted reason)

  unfoldable pub judge_completed :
      Option (PendingMvActuation F)
      → (Text → Option TagValue)
      → Io (PollState W F) (RunError E) (Option (AbortReason F) × Bool)
  unfolding judge_poll instant_now
  judge_completed none values = do _ ← on_link (instant_now env); pure (none, false)
  judge_completed (some p) values = judge_poll p (op_completed values)

  unfoldable pub completed_poll :
      Option (PendingMvActuation F)
      → (Text → Option TagValue)
      → Io (PollState W F) (RunError E) (PollRead F)
  unfolding judge_completed read_numeric_from_batch
  completed_poll pending values = do
    (reason, evidence) ← judge_completed pending values
    (pv, quality) ←
        lift (map_err reading (read_numeric_from_batch fl ch parse values cfg.process_variable))
    pure (sampled pv quality evidence reason)

  unfoldable pub after_batch :
      Option (PendingMvActuation F)
      → TickOperation (Text → Option TagValue)
      → Io (PollState W F) (RunError E) (PollRead F)
  unfolding completed_poll interrupted_poll
  after_batch pending (op_completed values) = completed_poll pending values
  after_batch pending op_cancelled =
      interrupted_poll pending op_cancelled user_interrupt
        "a cancelled pending MV poll must abort the run"
  after_batch pending op_timed_out =
      interrupted_poll pending op_timed_out
        (operation_timed_out cfg.process_variable cfg.op_timeout_secs)
        "a timed-out pending MV poll must abort the run"

  unfoldable pub poll_read : Io (PollState W F) (RunError E) (PollRead F)
  unfolding after_batch read_batch poll_tags
  poll_read = do
    pending ← gets (λ s. pending_of s.link)
    values ← on_link (read_batch env (poll_tags (not (is_none pending))))
    after_batch pending values
