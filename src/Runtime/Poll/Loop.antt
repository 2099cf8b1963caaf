-- ===== src/Runtime/Poll/Loop.antt =====
-- One turn of the loop of `run_polling_loop_with_timing`, the loop on fuel, and the whole function.
use bhtune.Common.{ℕ, zero, suc, Bool, Option, none, some}
use bhtune.Common.Text.{Text, Chars}
use bhtune.Common.Result.{Result, ok, err, map_err}
use bhtune.Common.Io.{Io, ◌>>=◌, pure, throw, gets, lift}
use bhtune.Float.{Floats}
use bhtune.Mrft.Engine.{MrftEngine, state}
use bhtune.Runtime.Outcome.{AbortReason, user_interrupt, timeout}
use bhtune.Runtime.Actuation.{
  MvActuationTracker, MvVerificationTrigger, no_limit, next_verification_wakeup,
  verification_trigger,
}
use bhtune.Runtime.Actuation.Verify.{required}
use bhtune.Runtime.Timing.{
  TickTimeSource, DriverKind, RunTimeAnchor, TimeRange, PollTimingAccumulator, for_driver,
}
use bhtune.Runtime.World.{
  World, Link, RunError, time_out_of_range, out_of_fuel, PollEvent, verification_due, poll_due,
  ctrl_c, run_timeout, instant_now, require_invariant,
}
use bhtune.Runtime.Tracking.{pending_of}
use bhtune.Runtime.Tracking.Reading.{verify_pending_mv_actuation}
use bhtune.Runtime.Poll.{
  PollSettings, PollState, PollOutcome, poll_completed, poll_aborted, on_link,
}
use bhtune.Runtime.Poll.Stepping.{Next, next_round, break_loop, return_aborted}
use bhtune.Runtime.Poll.Body.{tick_body}

-- The state before the first turn.
abbrev pub start_state :
    {W F : Type 0}
    → MrftEngine F
    → Bool
    → PollTimingAccumulator
    → TickTimeSource
    → ℕ
    → Link W F
    → PollState W F
start_state engine mv_written timing tick_time now link = record {
  link = link;
  engine = engine;
  mv_attempted = mv_written;
  tick_time = tick_time;
  timing = timing;
  next_poll_at = now;
  tick_index = 0;
  completion = none;
  post_delay_end = none;
}

unfoldable pub wakeup_of_tracker : {F : Type 0} → Option (MvActuationTracker F) → Option ℕ
unfolding next_verification_wakeup
wakeup_of_tracker none = none
wakeup_of_tracker (some t) = next_verification_wakeup t

abbrev pub next_of : {F : Type 0} → Option (AbortReason F) → Next F
next_of none = next_round
next_of (some reason) = return_aborted reason

module _ {W F D E : Type 0} (env : World W F E) (fl : Floats F D) (ch : Chars)
    (parse : Text → Option F) (range : TimeRange) (cfg : PollSettings) where
  -- The branch that `select!` takes.
  unfoldable pub select : Io (PollState W F) (RunError E) PollEvent
  unfolding wakeup_of_tracker
  select s =
      let (event, w) = env.select s.link.world (wakeup_of_tracker s.link.tracker) s.next_poll_at in
      (ok event, record s { link = record s.link { world = w } })

  unfoldable pub due_trigger : Io (PollState W F) (RunError E) MvVerificationTrigger
  unfolding instant_now verification_trigger
  due_trigger = do
    pending ← gets (λ s. pending_of s.link)
    elim pending [
      | none ↦
          lift (require_invariant none "a verification wakeup requires a due pending actuation")
      | some p ↦ do
        now ← on_link (instant_now env)
        lift (
            require_invariant (verification_trigger p now)
              "a verification wakeup requires a due pending actuation")
    ]

  -- The branch of a due verification; two rounds of the bounded read are enough.
  unfoldable pub verification_body : Io (PollState W F) (RunError E) (Next F)
  unfolding due_trigger verify_pending_mv_actuation
  verification_body = do
    trigger ← due_trigger
    reason ← on_link (
        verify_pending_mv_actuation env fl ch parse cfg.manipulated_variable cfg.op_timeout_secs
          cfg.allow_uncertain_quality 2 trigger no_limit required)
    pure (next_of reason)

  unfoldable pub take_branch : PollEvent → Io (PollState W F) (RunError E) (Next F)
  unfolding verification_body tick_body
  take_branch verification_due = verification_body
  take_branch poll_due = tick_body env fl ch parse range cfg
  take_branch ctrl_c = pure (return_aborted user_interrupt)
  take_branch run_timeout = pure (return_aborted (timeout cfg.timeout_secs))

  unfoldable pub round : Io (PollState W F) (RunError E) (Next F)
  unfolding select take_branch
  round = do event ← select; take_branch event

  -- What follows the loop.
  unfoldable pub finish_polling : Io (PollState W F) (RunError E) (PollOutcome F)
  unfolding state
  finish_polling = do
    s ← gets (λ s. s)
    action ←
        lift (require_invariant s.completion "the loop only `break`s after `completion` is set")
    pure (
        poll_completed (record {
          action = action;
          state = state fl s.engine;
          next_tick_index = s.tick_index;
          tick_time = s.tick_time;
        }))

  -- What a turn's end does: `rest` is the loop's next turn.
  unfoldable pub continue_loop :
      Next F
      → Io (PollState W F) (RunError E) (PollOutcome F)
      → Io (PollState W F) (RunError E) (PollOutcome F)
  unfolding finish_polling
  continue_loop next_round rest = rest
  continue_loop break_loop rest = finish_polling
  continue_loop (return_aborted reason) rest = pure (poll_aborted reason)

  unfoldable pub polling_rounds : ℕ → Io (PollState W F) (RunError E) (PollOutcome F)
  unfolding round continue_loop
  polling_rounds zero = throw out_of_fuel
  polling_rounds (suc n) = let rest = polling_rounds n in do next ← round; continue_loop next rest

  -- What `run_polling_loop_with_timing` does before its loop.
  unfoldable pub start_polling :
      DriverKind
      → RunTimeAnchor
      → MrftEngine F
      → Bool
      → PollTimingAccumulator
      → Io (Link W F) (RunError E) (PollState W F)
  unfolding for_driver instant_now
  start_polling driver anchor engine mv_written timing = do
    source ←
        lift
          (map_err (λ _. time_out_of_range) (for_driver range driver anchor cfg.poll_interval_ms))
    now ← instant_now env
    link ← gets (λ s. s)
    pure (start_state engine mv_written timing source now link)

  abbrev pub looped :
      Result (RunError E) (PollOutcome F) × PollState W F
      → Result (RunError E) (PollOutcome F) × Link W F
  looped (r, s) = (r, s.link)

  unfoldable pub run_from :
      ℕ
      → Result (RunError E) (PollState W F) × Link W F
      → Result (RunError E) (PollOutcome F) × Link W F
  unfolding polling_rounds
  run_from n (err e, link) = (err e, link)
  run_from n (ok s, link) = looped (polling_rounds n s)

  -- `n` turns of fuel.
  unfoldable pub run_polling_loop_with_timing :
      ℕ
      → DriverKind
      → RunTimeAnchor
      → MrftEngine F
      → Bool
      → PollTimingAccumulator
      → Io (Link W F) (RunError E) (PollOutcome F)
  unfolding start_polling run_from
  run_polling_loop_with_timing n driver anchor engine mv_written timing link =
      run_from n (start_polling driver anchor engine mv_written timing link)
