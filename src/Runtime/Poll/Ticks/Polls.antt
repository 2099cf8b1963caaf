-- ===== src/Runtime/Poll/Ticks/Polls.antt =====
-- The read of a poll, the checks on its sample and the whole branch.
use Prim.Native.String.{String}
use bhtune.Common.{ℕ, ◌+◌, Bool, not, ◌&&◌, ltb, Option, none, some, List, if_cases, inl, inr}
use bhtune.Common.Text.{Text, Chars}
use bhtune.Common.Result.{Result, ok, err, map_err, Result-cases}
use bhtune.Common.Io.{Io, Ends, done, stopped, then_with, Ends-then_with, Ends-weaken, pure}
use bhtune.Float.{Floats, SelfDiffSmall}
use bhtune.Process.{ControllerDirection}
use bhtune.LoopConfig.{LoopConfig}
use bhtune.Range.{PvRange}
use bhtune.Mrft.Engine.{MrftEngine, Completion, Tick, seconds}
use bhtune.Template.{is_none}
use bhtune.Runtime.Outcome.{AbortReason, Quality}
use bhtune.Runtime.Quality.{
  TagValue, SampleQuality, sample_quality_from_driver, check_quality, read_numeric_from_batch,
}
use bhtune.Runtime.Actuation.{MvActuationTracker, PendingMvActuation}
use bhtune.Runtime.Timing.{TimeRange}
use bhtune.Runtime.World.{
  World, Link, RunError, reading, Call, TickOperation, op_completed, op_cancelled, op_timed_out,
  instant_now, read_batch, require_invariant,
}
use bhtune.Runtime.Tracking.{pending_of}
use bhtune.Runtime.Poll.{PollSettings, PollState}
use bhtune.Runtime.Poll.Read.{
  PollRead, sampled, read_aborted, judge_poll, interrupted_poll, judge_completed, completed_poll,
  after_batch, poll_read, poll_tags,
}
use bhtune.Runtime.Poll.Stepping.{Next}
use bhtune.Runtime.Poll.Body.{is_err, use_sample, check_sample, sample_tick, use_read, tick_body}
use bhtune.Runtime.Poll.Trace.{Linked, Held, Linked-Held}
use bhtune.Runtime.Poll.Links.{Leaves}
use bhtune.Runtime.Poll.Links.Reads.{resolve_pending_mv_poll-Leaves}
use bhtune.Runtime.Poll.Ticks.{
  Sound, IsGood, IsHeld, IsEnded, NextKeeps, on_link-Ends, store-Good, store-Held,
  next_timestamp-keeps, observe_gap-keeps,
}
use bhtune.Runtime.Poll.Ticks.Steps.{step_tick-Keeps}

module _ {W F D E : Type 0} (env : World W F E) (fl : Floats F D) (ch : Chars)
    (parse : Text → Option F) (range : TimeRange) (cfg : PollSettings)
    (direction : ControllerDirection) (config : LoopConfig F) (pv_range : PvRange F)
    (tracked : Bool) (small : SelfDiffSmall fl) where
  abbrev G : PollState W F → Type 0
  G = IsGood env fl ch parse range cfg direction config pv_range tracked

  abbrev Waits : PollState W F → Type 0
  Waits = IsHeld env fl ch parse range cfg direction config pv_range tracked

  abbrev Ended : PollState W F → Type 0
  Ended = IsEnded env fl ch parse range cfg direction config pv_range tracked

  abbrev Keeps : Next F → PollState W F → Type 0
  Keeps = NextKeeps env fl ch parse range cfg direction config pv_range tracked

  -- What holds with a sample at hand, by the reason to abort that came with it.
  abbrev Sampled :
      Option (AbortReason F)
      → ℕ
      → Option (MvActuationTracker F)
      → List (Call F)
      → MrftEngine F
      → Option (Completion F)
      → Type 0
  Sampled none n tracker trace engine completion =
      Linked tracked n tracker trace
      × Sound env fl ch parse range cfg direction config pv_range tracked engine completion
  Sampled (some _) n tracker trace engine completion = Held tracked n tracker trace

  abbrev AtHand : Option (AbortReason F) → PollState W F → Type 0
  AtHand r s = Sampled r s.tick_index s.link.tracker s.link.trace s.engine s.completion

  AtHand-Held : (r : Option (AbortReason F)) (s : PollState W F) → AtHand r s → Waits s
  AtHand-Held none s h = Linked-Held h.0
  AtHand-Held (some _) s h = h

  AtHand-Ended : (r : Option (AbortReason F)) (s : PollState W F) → AtHand r s → Ended s
  AtHand-Ended r s h = (s.tick_index, AtHand-Held r s h)

  abbrev ReadKeeps : PollRead F → PollState W F → Type 0
  ReadKeeps (sampled _ _ _ r) s = AtHand r s
  ReadKeeps (read_aborted _) s = Waits s

  judged_at_hand :
      (n : ℕ) (engine : MrftEngine F) (completion : Option (Completion F))
      (r : Option (AbortReason F)) (l : Link W F)
      → Leaves env tracked n r l
      → Sound env fl ch parse range cfg direction config pv_range tracked engine completion
      → Sampled r n l.tracker l.trace engine completion
  judged_at_hand n engine completion none l k sound = (k, sound)
  judged_at_hand n engine completion (some reason) l k sound = k

  judge_poll-AtHand :
      (p : PendingMvActuation F) (values : TickOperation (Text → Option TagValue))
      (s : PollState W F)
      → G s
      → Ends (λ r. AtHand r.0) Ended (judge_poll env fl ch parse range cfg p values s)
  unfolding judge_poll
  judge_poll-AtHand p values s h =
      on_link-Ends env fl ch parse range cfg direction config pv_range tracked s
        (resolve_pending_mv_poll-Leaves env tracked s.tick_index fl cfg.manipulated_variable
          cfg.op_timeout_secs cfg.allow_uncertain_quality ch parse values _ _ _ h.0)
        (λ r l k. judged_at_hand s.tick_index s.engine s.completion r.0 l k h.1)
        (λ l k. (s.tick_index, k))

  judge_completed-AtHand :
      (pending : Option (PendingMvActuation F)) (values : Text → Option TagValue)
      (s : PollState W F)
      → G s
      → Ends (λ r. AtHand r.0) Ended (judge_completed env fl ch parse range cfg pending values s)
  unfolding judge_completed
  judge_completed-AtHand none values s h = done h
  judge_completed-AtHand (some p) values s h = judge_poll-AtHand p (op_completed values) s h

  require_reason :
      (r : Option (AbortReason F)) (message : String) (s : PollState W F)
      → AtHand r s
      → Ends ReadKeeps Ended (
          then_with (require_invariant {E = E} r message, s) (λ reason. pure (read_aborted reason)))
  require_reason none message s h = stopped (AtHand-Ended none s h)
  require_reason (some reason) message s h = done h

  with_sample :
      (v : Result (RunError E) (F × Quality)) (evidence : Bool) (r : Option (AbortReason F))
      (s : PollState W F)
      → AtHand r s
      → Ends ReadKeeps Ended (then_with (v, s) (λ v. pure (sampled v.0 v.1 evidence r)))
  with_sample (ok v) evidence r s h = done h
  with_sample (err e) evidence r s h = stopped (AtHand-Ended r s h)

  interrupted_poll-ReadKeeps :
      (pending : Option (PendingMvActuation F)) (values : TickOperation (Text → Option TagValue))
      (plain : AbortReason F) (message : String) (s : PollState W F)
      → G s
      → Ends ReadKeeps Ended
          (interrupted_poll env fl ch parse range cfg pending values plain message s)
  unfolding interrupted_poll
  interrupted_poll-ReadKeeps none values plain message s h = done (Linked-Held h.0)
  interrupted_poll-ReadKeeps (some p) values plain message s h =
      Ends-then_with (judge_poll-AtHand p values s h) (λ r t k. require_reason r.0 message t k)

  after_batch-ReadKeeps :
      (pending : Option (PendingMvActuation F)) (values : TickOperation (Text → Option TagValue))
      (s : PollState W F)
      → G s
      → Ends ReadKeeps Ended (after_batch env fl ch parse range cfg pending values s)
  unfolding after_batch completed_poll
  after_batch-ReadKeeps pending (op_completed values) s h =
      Ends-then_with (judge_completed-AtHand pending values s h) (λ r t k.
        with_sample
          (map_err reading (read_numeric_from_batch fl ch parse values cfg.process_variable)) r.1
          r.0 t k)
  after_batch-ReadKeeps pending op_cancelled s h =
      interrupted_poll-ReadKeeps pending op_cancelled _ _ s h
  after_batch-ReadKeeps pending op_timed_out s h =
      interrupted_poll-ReadKeeps pending op_timed_out _ _ s h

  poll_read-ReadKeeps :
      (s : PollState W F) → G s → Ends ReadKeeps Ended (poll_read env fl ch parse range cfg s)
  unfolding poll_read read_batch
  poll_read-ReadKeeps s h =
      elim (Result-cases
        (env.read_batch s.link.world
          (poll_tags env fl ch parse range cfg (not (is_none (pending_of s.link))))).0) [
            | inl (values, e) ↦ rw e (after_batch-ReadKeeps (pending_of s.link) values _ h)
            | inr (x, e) ↦ rw e (stopped (s.tick_index, Linked-Held h.0))
          ]

  use_sample-Keeps :
      (tick : Tick F) (quality : SampleQuality) (observed : ℕ) (evidence : Bool)
      (r : Option (AbortReason F)) (s : PollState W F)
      → AtHand r s
      → Ends Keeps Ended (use_sample env fl ch parse range cfg tick quality observed evidence r s)
  unfolding use_sample
  use_sample-Keeps tick quality observed evidence (some reason) s h =
      Ends-then_with
        (store-Held env fl ch parse range cfg direction config pv_range tracked tick _ quality s h)
        (λ _ t k. done k)
  use_sample-Keeps tick quality observed evidence none s h =
      if_cases (λ (m : Io (PollState W F) (RunError E) (Next F)). Ends Keeps Ended (m s))
        (is_none s.completion && ltb tick.time (cfg.start_time + seconds cfg.mrft_delay_secs)) _ _
        (λ _.
          Ends-then_with
            (store-Good env fl ch parse range cfg direction config pv_range tracked tick _ quality s
              h)
            (λ _ t k. done k))
        (λ _.
          step_tick-Keeps env fl ch parse range cfg direction config pv_range tracked small tick
            quality observed evidence s h)

  check_sample-Keeps :
      (tick : Tick F) (quality : Quality) (observed : ℕ) (evidence : Bool)
      (r : Option (AbortReason F)) (s : PollState W F)
      → AtHand r s
      → Ends Keeps Ended (check_sample env fl ch parse range cfg tick quality observed evidence r s)
  unfolding check_sample
  check_sample-Keeps tick quality observed evidence r s h =
      if_cases (λ (m : Io (PollState W F) (RunError E) (Next F)). Ends Keeps Ended (m s))
        (is_err (check_quality {E = E} cfg.process_variable quality cfg.allow_uncertain_quality)) _
        _
        (λ _.
          Ends-then_with
            (store-Held env fl ch parse range cfg direction config pv_range tracked tick _
              (sample_quality_from_driver quality) s (AtHand-Held r s h))
            (λ _ t k. done k))
        (λ _. use_sample-Keeps tick (sample_quality_from_driver quality) observed evidence r s h)

  sample_tick-Keeps :
      (pv : F) (quality : Quality) (evidence : Bool) (r : Option (AbortReason F))
      (s : PollState W F)
      → AtHand r s
      → Ends Keeps Ended (sample_tick env fl ch parse range cfg pv quality evidence r s)
  unfolding sample_tick
  sample_tick-Keeps pv quality evidence r s h =
      let looked = record s { link = (instant_now env s.link).1 } in
      Ends-then_with
        (Ends-weaken
          (next_timestamp-keeps env fl ch parse range cfg direction config pv_range tracked
            (Sampled r) looked h)
          (λ _ _ k. k) (AtHand-Ended r))
        (λ now t k.
          Ends-then_with
            (Ends-weaken
              (observe_gap-keeps env fl ch parse range cfg direction config pv_range tracked
                (Sampled r) now t k)
              (λ _ _ k. k) (AtHand-Ended r))
            (λ _ u g. check_sample-Keeps _ quality _ evidence r u g))

  use_read-Keeps :
      (r : PollRead F) (s : PollState W F)
      → ReadKeeps r s
      → Ends Keeps Ended (use_read env fl ch parse range cfg r s)
  unfolding use_read
  use_read-Keeps (read_aborted reason) s h = done (s.tick_index, h)
  use_read-Keeps (sampled pv quality evidence r) s h = sample_tick-Keeps pv quality evidence r s h

  pub tick_body-Keeps :
      (s : PollState W F) → G s → Ends Keeps Ended (tick_body env fl ch parse range cfg s)
  unfolding tick_body
  tick_body-Keeps s h = Ends-then_with (poll_read-ReadKeeps _ h) use_read-Keeps
