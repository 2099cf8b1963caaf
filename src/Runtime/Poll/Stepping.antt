-- ===== src/Runtime/Poll/Stepping.antt =====
-- The engine's step in a poll and the actions that it asks for.
use bhtune.Common.{
  ℕ, ◌+◌, ◌-◌, Bool, true, false, ◌&&◌, not, leb, List, [], ◌∷◌, Option, none, some, if◌then◌else◌,
}
use bhtune.Common.Text.{Text, Chars}
use bhtune.Common.Result.{Result, ok, err}
use bhtune.Common.Io.{Io, ◌>>=◌, ◌>>◌, pure, gets, modify, lift}
use bhtune.Float.{Floats}
use bhtune.Mrft.Engine.{Tick, Action, write_mv, complete, MrftState, step, state, seconds}
use bhtune.Template.{is_none}
use bhtune.Runtime.Outcome.{AbortReason, user_interrupt, operation_timed_out}
use bhtune.Runtime.Quality.{SampleQuality}
use bhtune.Runtime.Actuation.{MvActuationTracker, relay, mv_actuation_tolerance}
use bhtune.Runtime.Timing.{TimeRange}
use bhtune.Runtime.World.{
  World, RunError, broken_invariant, step_too_small, TickOperation, op_completed, op_cancelled,
  op_timed_out, instant_now, write_value,
}
use bhtune.Runtime.Tracking.{
  pending_of, record_accepted_at_switch, reject_replacement_for_pending_actuation,
}
use bhtune.Runtime.Poll.{PollSettings, PollState, on_link, insert_tune_sample}

-- How a branch of the loop ends: `continue`, `break` or `return`.
pub data Next (F : Type 0) : Type 0 where
  next_round break_loop : Next F
  return_aborted : AbortReason F → Next F

-- `actions.iter().any(...)`.
unfoldable pub any_write : {F : Type 0} → List (Action F) → Bool
any_write [] = false
any_write (write_mv _ ∷ rest) = true
any_write (complete _ ∷ rest) = any_write rest

-- The loop ends with the padding behind a completion.
abbrev pub next_at : {F : Type 0} → Option ℕ → ℕ → Next F
next_at none now = next_round
next_at (some end) now = if leb end now then break_loop else next_round

module _ {W F D E : Type 0} (env : World W F E) (fl : Floats F D) (ch : Chars)
    (parse : Text → Option F) (range : TimeRange) (cfg : PollSettings) where
  -- The sample of the tick, with the state that is stored beside it.
  unfoldable pub store_sample :
      Tick F → MrftState F → SampleQuality → Io (PollState W F) (RunError E) (Unit {0})
  unfolding insert_tune_sample
  store_sample tick engine_state quality = do
    s ← gets (λ s. s.tick_index)
    on_link (insert_tune_sample env s tick engine_state quality)

  abbrev pub advance : Io (PollState W F) (RunError E) (Unit {0})
  advance = modify (λ s. record s { tick_index = s.tick_index + 1 })

  -- The tolerance of a relay command, where there is a tracker.
  unfoldable pub relay_tolerance :
      Option (MvActuationTracker F) → F → Result (RunError E) (Option F)
  unfolding mv_actuation_tolerance
  relay_tolerance none v = ok none
  relay_tolerance (some t) v =
      elim (mv_actuation_tolerance fl relay v t.previous_commanded_mv t.mv_span) [
        | ok tolerance ↦ ok (some tolerance)
        | err _ ↦ err step_too_small
      ]

  -- `record_relay_actuation`, for a tracker and its tolerance.
  unfoldable pub record_accepted_relay :
      Option (MvActuationTracker F)
      → Option F
      → F
      → ℕ
      → ℕ
      → Io (PollState W F) (RunError E) (Unit {0})
  unfolding instant_now record_accepted_at_switch
  record_accepted_relay (some t) (some tolerance) v now observed = do
    commanded ← on_link (instant_now env)
    on_link (
        record_accepted_at_switch env t relay v now observed
          (observed + seconds cfg.noise_protection_secs) (now + (commanded - observed)) commanded
          tolerance)
  record_accepted_relay _ _ v now observed = pure tt

  -- The end of a write. `before` is the engine's state before its step.
  unfoldable pub conclude_write :
      Tick F
      → MrftState F
      → SampleQuality
      → ℕ
      → F
      → Option (MvActuationTracker F)
      → Option F
      → TickOperation (Unit {0})
      → Io (PollState W F) (RunError E) (Option (AbortReason F))
  unfolding record_accepted_relay store_sample state
  conclude_write tick before quality observed v tracker tolerance (op_completed _) = do
    record_accepted_relay tracker tolerance v tick.time observed
    pure none
  conclude_write tick before quality observed v tracker tolerance op_cancelled = do
    store_sample tick before quality
    pure (some user_interrupt)
  conclude_write tick before quality observed v tracker tolerance op_timed_out = do
    engine ← gets (λ s. s.engine)
    store_sample tick (state fl engine) quality
    pure (some (operation_timed_out cfg.manipulated_variable cfg.op_timeout_secs))

  -- `Action::WriteMv`: the reason if the run is aborted by it.
  unfoldable pub perform_write :
      Tick F
      → MrftState F
      → SampleQuality
      → ℕ
      → F
      → Io (PollState W F) (RunError E) (Option (AbortReason F))
  unfolding relay_tolerance write_value conclude_write
  perform_write tick before quality observed v = do
    tracker ← gets (λ s. s.link.tracker)
    tolerance ← lift (relay_tolerance tracker v)
    modify (λ s. record s { mv_attempted = true })
    written ← on_link (write_value env cfg.manipulated_variable v)
    conclude_write tick before quality observed v tracker tolerance written

  -- A `return` leaves the loop over the actions.
  unfoldable pub unless_aborted :
      Option (AbortReason F)
      → Io (PollState W F) (RunError E) (Option (AbortReason F))
      → Io (PollState W F) (RunError E) (Option (AbortReason F))
  unless_aborted none rest = rest
  unless_aborted (some reason) rest = pure (some reason)

  -- The `for` loop over the actions.
  unfoldable pub perform_actions :
      Tick F
      → MrftState F
      → SampleQuality
      → ℕ
      → List (Action F)
      → Io (PollState W F) (RunError E) (Option (AbortReason F))
  unfolding perform_write unless_aborted
  perform_actions tick before quality observed [] = pure none
  perform_actions tick before quality observed (write_mv v ∷ rest) =
      let others = perform_actions tick before quality observed rest in
      do aborted ← perform_write tick before quality observed v; unless_aborted aborted others
  perform_actions tick before quality observed (complete c ∷ rest) = do
    modify (λ s. record s {
      completion = some c;
      post_delay_end = some (tick.time + seconds cfg.mrft_delay_secs);
    })
    perform_actions tick before quality observed rest

  -- The last statements of the branch.
  unfoldable pub close_tick : Tick F → SampleQuality → Io (PollState W F) (RunError E) (Next F)
  unfolding store_sample state
  close_tick tick quality = do
    engine ← gets (λ s. s.engine)
    store_sample tick (state fl engine) quality
    advance
    end ← gets (λ s. s.post_delay_end)
    pure (next_at end tick.time)

  unfoldable pub close_unless_aborted :
      Tick F → SampleQuality → Option (AbortReason F) → Io (PollState W F) (RunError E) (Next F)
  unfolding close_tick
  close_unless_aborted tick quality none = close_tick tick quality
  close_unless_aborted tick quality (some reason) = pure (return_aborted reason)

  unfoldable pub after_step :
      Tick F
      → MrftState F
      → SampleQuality
      → ℕ
      → List (Action F)
      → Io (PollState W F) (RunError E) (Next F)
  unfolding perform_actions close_unless_aborted
  after_step tick before quality observed actions = do
    aborted ← perform_actions tick before quality observed actions
    close_unless_aborted tick quality aborted

  -- A pending command must not be replaced.
  unfoldable pub reject_tick :
      Tick F → MrftState F → SampleQuality → Bool → Io (PollState W F) (RunError E) (Next F)
  unfolding reject_replacement_for_pending_actuation store_sample
  reject_tick tick before quality evidence = do
    lift (
        if evidence
        then ok tt
        else err (
            broken_invariant
              "a pending batched poll must provide MV evidence before replacement preview"))
    reason ← on_link (reject_replacement_for_pending_actuation env cfg.manipulated_variable)
    store_sample tick before quality
    pure (return_aborted reason)

  -- The engine's step; with a command pending it is taken only if it asks for no write.
  unfoldable pub step_tick :
      Tick F → SampleQuality → ℕ → Bool → Io (PollState W F) (RunError E) (Next F)
  unfolding reject_tick after_step state any_write
  step_tick tick quality observed evidence = do
    s ← gets (λ s. s)
    let before = state fl s.engine
    let (stepped, actions) = step fl s.engine tick
    let commit = (do
      modify (λ s. record s { engine = stepped })
      after_step tick before quality observed actions)
    (if not (is_none (pending_of s.link)) && any_write actions
        then reject_tick tick before quality evidence
        else commit)
