-- ===== src/Runtime/Poll/Safety.antt =====
-- The whole polling loop: what holds of its trace and of its completion, however the process, the
-- database, the clock and the operator behave and wherever the run stops.
use bhtune.Common.{ℕ, zero, suc, subst, Bool, Option, none, some, Option-cases, inl, inr}
use bhtune.Common.Text.{Text, Chars}
use bhtune.Common.Result.{Result}
use bhtune.Common.Io.{Io, Ends, done, stopped, Ends-then_with, Ends-lift}
use bhtune.Float.{Floats, SelfDiffSmall}
use bhtune.Process.{ControllerDirection}
use bhtune.LoopConfig.{LoopConfig}
use bhtune.Range.{PvRange}
use bhtune.Handoff.{IsMeasured}
use bhtune.Runtime.Outcome.{AbortReason}
use bhtune.Runtime.Actuation.{no_limit}
use bhtune.Runtime.Timing.{TimeRange}
use bhtune.Runtime.World.{
  World, Link, RunError, PollEvent, verification_due, poll_due, ctrl_c, run_timeout,
}
use bhtune.Runtime.Tracking.{pending_of}
use bhtune.Runtime.Poll.{PollSettings, PollState, PollOutcome, poll_completed, poll_aborted}
use bhtune.Runtime.Poll.Stepping.{Next, next_round, break_loop, return_aborted}
use bhtune.Runtime.Poll.Loop.{
  next_of, due_trigger, verification_body, take_branch, round, select, finish_polling,
  continue_loop, polling_rounds, looped, run_from,
}
use bhtune.Runtime.Poll.Trace.{Held, Linked-Held}
use bhtune.Runtime.Poll.Links.{Leaves}
use bhtune.Runtime.Poll.Links.Reads.{verify_pending_mv_actuation-Leaves}
use bhtune.Runtime.Poll.Ticks.{MeasuredOption, IsGood, IsEnded, NextKeeps, on_link-Ends}
use bhtune.Runtime.Poll.Ticks.Polls.{tick_body-Keeps}

module _ {W F D E : Type 0} (env : World W F E) (fl : Floats F D) (ch : Chars)
    (parse : Text → Option F) (range : TimeRange) (cfg : PollSettings)
    (direction : ControllerDirection) (config : LoopConfig F) (pv_range : PvRange F)
    (tracked : Bool) (small : SelfDiffSmall fl) where
  abbrev G : PollState W F → Type 0
  G = IsGood env fl ch parse range cfg direction config pv_range tracked

  abbrev Ended : PollState W F → Type 0
  Ended = IsEnded env fl ch parse range cfg direction config pv_range tracked

  abbrev Keeps : Next F → PollState W F → Type 0
  Keeps = NextKeeps env fl ch parse range cfg direction config pv_range tracked

  due_trigger-Good :
      (s : PollState W F) → G s → Ends (λ _. G) Ended (due_trigger env fl ch parse range cfg s)
  unfolding due_trigger
  due_trigger-Good s h = elim (Option-cases (pending_of s.link)) [
    | inl e ↦ rw e (stopped (s.tick_index, Linked-Held h.0))
    | inr (p, e) ↦ rw e (Ends-lift _ _ (λ _ _. h) (s.tick_index, Linked-Held h.0))
  ]

  next_of-Keeps :
      (r : Option (AbortReason F)) (l : Link W F) (s : PollState W F)
      → G s
      → Leaves env tracked s.tick_index r l
      → Keeps (next_of r) (record s { link = l })
  next_of-Keeps none l s h k = (k, h.1)
  next_of-Keeps (some reason) l s h k = (s.tick_index, k)

  verified :
      (s : PollState W F) {r : Result (RunError E) (Option (AbortReason F)) × Link W F}
      → G s
      → Ends (Leaves env tracked s.tick_index) (λ l. Held tracked s.tick_index l.tracker l.trace) r
      → Ends (λ r. Keeps (next_of r)) Ended (r.0, record s { link = r.1 })
  verified s h e =
      on_link-Ends env fl ch parse range cfg direction config pv_range tracked s e
        (λ r l k. next_of-Keeps r l s h k) (λ l k. (s.tick_index, k))

  verification_body-Keeps :
      (s : PollState W F) → G s → Ends Keeps Ended (verification_body env fl ch parse range cfg s)
  unfolding verification_body
  verification_body-Keeps s h = Ends-then_with (due_trigger-Good s h) (λ trigger t k.
      Ends-then_with
        (verified t k (
          verify_pending_mv_actuation-Leaves env tracked t.tick_index fl cfg.manipulated_variable
            cfg.op_timeout_secs cfg.allow_uncertain_quality ch parse 2 trigger no_limit t.link k.0))
        (λ r u g. done g))

  take_branch-Keeps :
      (event : PollEvent) (s : PollState W F)
      → G s
      → Ends Keeps Ended (take_branch env fl ch parse range cfg event s)
  unfolding take_branch
  take_branch-Keeps verification_due s h = verification_body-Keeps s h
  take_branch-Keeps poll_due s h =
      tick_body-Keeps env fl ch parse range cfg direction config pv_range tracked small s h
  take_branch-Keeps ctrl_c s h = done (s.tick_index, Linked-Held h.0)
  take_branch-Keeps run_timeout s h = done (s.tick_index, Linked-Held h.0)

  -- What the loop leaves: a trace in order, and a completion that is measured.
  abbrev OutcomeKeeps : PollOutcome F → PollState W F → Type 0
  OutcomeKeeps (poll_completed c) s =
      Held tracked c.next_tick_index s.link.tracker s.link.trace
      × IsMeasured fl direction config pv_range c.action
  OutcomeKeeps (poll_aborted _) s = Ended s

  finish_polling-OutcomeKeeps :
      (s : PollState W F)
      → G s
      → Ends OutcomeKeeps Ended (finish_polling env fl ch parse range cfg s)
  unfolding finish_polling
  finish_polling-OutcomeKeeps s h = elim (Option-cases s.completion) [
    | inl e ↦ rw e (stopped (s.tick_index, Linked-Held h.0))
    | inr (c, e) ↦ rw e (
        done (
          Linked-Held h.0,
          subst (MeasuredOption env fl ch parse range cfg direction config pv_range tracked) e
              h.1.measured,
        ))
  ]

  continue_loop-OutcomeKeeps :
      (next : Next F) (rest : Io (PollState W F) (RunError E) (PollOutcome F)) (s : PollState W F)
      → Keeps next s
      → (G s → Ends OutcomeKeeps Ended (rest s))
      → Ends OutcomeKeeps Ended (continue_loop env fl ch parse range cfg next rest s)
  unfolding continue_loop
  continue_loop-OutcomeKeeps next_round rest s h k = k h
  continue_loop-OutcomeKeeps break_loop rest s h k = finish_polling-OutcomeKeeps s h
  continue_loop-OutcomeKeeps (return_aborted reason) rest s h k = done h

  round-Keeps : (s : PollState W F) → G s → Ends Keeps Ended (round env fl ch parse range cfg s)
  unfolding round select
  round-Keeps s h = take_branch-Keeps _ _ h

  polling_rounds-OutcomeKeeps :
      (n : ℕ) (s : PollState W F)
      → G s
      → Ends OutcomeKeeps Ended (polling_rounds env fl ch parse range cfg n s)
  unfolding polling_rounds
  polling_rounds-OutcomeKeeps zero s h = stopped (s.tick_index, Linked-Held h.0)
  polling_rounds-OutcomeKeeps (suc n) s h = Ends-then_with (round-Keeps s h) (λ next t k.
      continue_loop-OutcomeKeeps next (polling_rounds env fl ch parse range cfg n) t k
        (polling_rounds-OutcomeKeeps n t))

  abbrev pub LinkEnded : Link W F → Type 0
  LinkEnded l = (n : ℕ) × Held tracked n l.tracker l.trace

  -- The same of the link that is left.
  abbrev pub RunKeeps : PollOutcome F → Link W F → Type 0
  RunKeeps (poll_completed c) l =
      Held tracked c.next_tick_index l.tracker l.trace
      × IsMeasured fl direction config pv_range c.action
  RunKeeps (poll_aborted _) l = LinkEnded l

  RunKeeps-OutcomeKeeps :
      (o : PollOutcome F) (s : PollState W F) → OutcomeKeeps o s → RunKeeps o s.link
  RunKeeps-OutcomeKeeps (poll_completed c) s h = h
  RunKeeps-OutcomeKeeps (poll_aborted reason) s h = h

  pub RunKeeps-Ended : (o : PollOutcome F) (l : Link W F) → RunKeeps o l → LinkEnded l
  RunKeeps-Ended (poll_completed c) l h = (c.next_tick_index, h.0)
  RunKeeps-Ended (poll_aborted reason) l h = h

  looped-RunKeeps :
      {r : Result (RunError E) (PollOutcome F) × PollState W F}
      → Ends OutcomeKeeps Ended r
      → Ends RunKeeps LinkEnded (looped env fl ch parse range cfg r)
  looped-RunKeeps (done {a = a} {s = s} q) = done (RunKeeps-OutcomeKeeps a s q)
  looped-RunKeeps (stopped h) = stopped h

  pub run_from-RunKeeps :
      (n : ℕ) {r : Result (RunError E) (PollState W F) × Link W F}
      → Ends (λ s _. G s) LinkEnded r
      → Ends RunKeeps LinkEnded (run_from env fl ch parse range cfg n r)
  unfolding run_from
  run_from-RunKeeps n (done {a = s} h) = looped-RunKeeps (polling_rounds-OutcomeKeeps n s h)
  run_from-RunKeeps n (stopped h) = stopped h
