-- ===== src/Runtime/Poll/Ticks/Steps.antt =====
-- The engine's step in a poll, with the actions that it asks for.
use bhtune.Common.{
  ℕ, ◌+◌, ◌≡◌, refl, Bool, true, false, not, ◌&&◌, leb, List, Option, none, some, if_cases, inl,
  inr,
}
use bhtune.Common.Text.{Text, Chars}
use bhtune.Common.Result.{Result, Result-cases}
use bhtune.Common.Io.{Io, Ends, done, stopped, Ends-then_with}
use bhtune.Float.{Floats, SelfDiffSmall}
use bhtune.Process.{ControllerDirection}
use bhtune.LoopConfig.{LoopConfig}
use bhtune.Range.{PvRange}
use bhtune.Mrft.Engine.{MrftEngine, MrftState, Completion, Tick, Action, step, state}
use bhtune.Mrft.Counting.{step-Inv}
use bhtune.Handoff.{Matches-step}
use bhtune.Template.{is_none}
use bhtune.Runtime.Outcome.{AbortReason}
use bhtune.Runtime.Quality.{SampleQuality}
use bhtune.Runtime.Timing.{TimeRange}
use bhtune.Runtime.World.{
  World, Link, RunError, TickOperation, op_completed, op_cancelled, op_timed_out, write_value,
}
use bhtune.Runtime.Tracking.{pending_of}
use bhtune.Runtime.Poll.{PollSettings, PollState}
use bhtune.Runtime.Poll.Stepping.{
  any_write, next_at, relay_tolerance, conclude_write, perform_write, perform_actions,
  unless_aborted, close_tick, close_unless_aborted, after_step, reject_tick, step_tick, Next,
  next_round, break_loop,
}
use bhtune.Runtime.Poll.Trace.{Held, Written, Linked-Held}
use bhtune.Runtime.Poll.Trace.Accepted.{Linked-Written, Written-Held}
use bhtune.Runtime.Poll.Links.{reject_replacement-Held}
use bhtune.Runtime.Poll.Ticks.{
  Sound, IsGood, IsHeld, IsEnded, NextKeeps, on_link-Ends, store-Good, store-Held,
}
use bhtune.Runtime.Poll.Ticks.Asked.{
  Asked, nothing, relay_step, snap_back, step-Asked, Tolerated, relay_tolerance-Tolerated,
  record_accepted-Good,
}

module _ {W F D E : Type 0} (env : World W F E) (fl : Floats F D) (ch : Chars)
    (parse : Text → Option F) (range : TimeRange) (cfg : PollSettings)
    (direction : ControllerDirection) (config : LoopConfig F) (pv_range : PvRange F)
    (tracked : Bool) (small : SelfDiffSmall fl) where
  abbrev G : PollState W F → Type 0
  G = IsGood env fl ch parse range cfg direction config pv_range tracked

  abbrev Ended : PollState W F → Type 0
  Ended = IsEnded env fl ch parse range cfg direction config pv_range tracked

  abbrev Keeps : Next F → PollState W F → Type 0
  Keeps = NextKeeps env fl ch parse range cfg direction config pv_range tracked

  abbrev SoundFor : MrftEngine F → Option (Completion F) → Type 0
  SoundFor = Sound env fl ch parse range cfg direction config pv_range tracked

  module _ (tick : Tick F) (before : MrftState F) (quality : SampleQuality) (observed : ℕ) where
    abbrev AfterAction : Option (AbortReason F) → PollState W F → Type 0
    AfterAction none s = G s
    AfterAction (some _) s = Ended s

    conclude_write-AfterAction :
        (v : F) (tolerance : Option F) (written : TickOperation (Unit {0})) (s : PollState W F)
        → Tolerated s.link.tracker tolerance
        → Written tracked s.tick_index s.link.tracker s.link.trace
        → SoundFor s.engine s.completion
        → Ends AfterAction Ended (
            conclude_write env fl ch parse range cfg tick before quality observed v s.link.tracker
              tolerance written s)
    unfolding conclude_write
    conclude_write-AfterAction v tolerance (op_completed _) s tol h sound =
        Ends-then_with
          (record_accepted-Good env fl ch parse range cfg direction config pv_range tracked tol v
            tick.time observed s s.link.world s.link.trace h sound)
          (λ _ t k. done k)
    conclude_write-AfterAction v tolerance op_cancelled s tol h sound =
        Ends-then_with
          (store-Held env fl ch parse range cfg direction config pv_range tracked tick before
            quality s (Written-Held s.link.tracker s.link.trace h))
          (λ _ t k. done k)
    conclude_write-AfterAction v tolerance op_timed_out s tol h sound =
        Ends-then_with
          (store-Held env fl ch parse range cfg direction config pv_range tracked tick _ quality s
            (Written-Held s.link.tracker s.link.trace h))
          (λ _ t k. done k)

    perform_write-AfterAction :
        (v : F) (s : PollState W F)
        → pending_of s.link ≡ none
        → G s
        → Ends AfterAction Ended
            (perform_write env fl ch parse range cfg tick before quality observed v s)
    unfolding perform_write write_value
    perform_write-AfterAction v s quiet h =
        let out = Linked-Written s.link.trace v quiet h.0 in
        elim (Result-cases (relay_tolerance env fl ch parse range cfg s.link.tracker v)) [
          | inl (o, e) ↦
              rw e
                (elim (Result-cases (env.write_value s.link.world cfg.manipulated_variable v).0) [
                  | inl (w, sent) ↦ rw sent (
                      conclude_write-AfterAction v o w _
                        (relay_tolerance-Tolerated env fl ch parse range cfg direction config
                          pv_range tracked _ v o e)
                        out h.1)
                  | inr (x, failed) ↦
                      rw failed (stopped (s.tick_index, Written-Held s.link.tracker _ out))
                ])
          | inr (x, e) ↦ rw e (stopped (s.tick_index, Linked-Held h.0))
        ]

    abbrev Allowed : List (Action F) → PollState W F → Type 0
    Allowed actions s = any_write actions ≡ true → pending_of s.link ≡ none

    unless_aborted-AfterAction :
        (r : Option (AbortReason F))
        (rest : Io (PollState W F) (RunError E) (Option (AbortReason F))) (s : PollState W F)
        → AfterAction r s
        → (G s → Ends AfterAction Ended (rest s))
        → Ends AfterAction Ended (unless_aborted env fl ch parse range cfg r rest s)
    unfolding unless_aborted
    unless_aborted-AfterAction none rest s h k = k h
    unless_aborted-AfterAction (some r) rest s h k = done h

    perform_actions-AfterAction :
        {actions : List (Action F)}
        → Asked fl direction config pv_range actions
        → (s : PollState W F) → Allowed actions s
        → G s
        → Ends AfterAction Ended
            (perform_actions env fl ch parse range cfg tick before quality observed actions s)
    unfolding perform_actions any_write
    perform_actions-AfterAction nothing s quiet h = done h
    perform_actions-AfterAction (relay_step v) s quiet h =
        Ends-then_with (perform_write-AfterAction v s (quiet refl) h)
          (λ r t k. unless_aborted-AfterAction r _ t k (λ g. done g))
    perform_actions-AfterAction (snap_back v c m) s quiet h =
        Ends-then_with (perform_write-AfterAction v s (quiet refl) h) (λ r t k.
          unless_aborted-AfterAction r _ t k
            (λ g. done (g.0, record { inv = g.1.inv; matches = g.1.matches; measured = m })))

    next_at-Keeps : (end : Option ℕ) (now : ℕ) (s : PollState W F) → G s → Keeps (next_at end now) s
    next_at-Keeps none now s h = h
    next_at-Keeps (some end) now s h =
        if_cases (λ next. Keeps next s) (leb end now) break_loop next_round (λ _. h) (λ _. h)

    close_tick-Keeps :
        (s : PollState W F)
        → G s
        → Ends Keeps Ended (close_tick env fl ch parse range cfg tick quality s)
    unfolding close_tick
    close_tick-Keeps s h =
        Ends-then_with
          (store-Good env fl ch parse range cfg direction config pv_range tracked tick _ quality s
            h)
          (λ _ t k. done (
            next_at-Keeps t.post_delay_end tick.time (record t { tick_index = t.tick_index + 1 })
              k))

    close_unless_aborted-Keeps :
        (r : Option (AbortReason F)) (s : PollState W F)
        → AfterAction r s
        → Ends Keeps Ended (close_unless_aborted env fl ch parse range cfg tick quality r s)
    unfolding close_unless_aborted
    close_unless_aborted-Keeps none s h = close_tick-Keeps s h
    close_unless_aborted-Keeps (some r) s h = done h

    after_step-Keeps :
        (actions : List (Action F)) (s : PollState W F)
        → Asked fl direction config pv_range actions
        → Allowed actions s
        → G s
        → Ends Keeps Ended
            (after_step env fl ch parse range cfg tick before quality observed actions s)
    unfolding after_step close_unless_aborted
    after_step-Keeps actions s a quiet h =
        Ends-then_with (perform_actions-AfterAction a s quiet h)
          (λ r t k. close_unless_aborted-Keeps r t k)

    abbrev Waits : PollState W F → Type 0
    Waits = IsHeld env fl ch parse range cfg direction config pv_range tracked

    -- Held code on the link, for the whole state.
    rejected :
        {A : Type 0} (s : PollState W F) {r : Result (RunError E) A × Link W F}
        → Ends
            (λ _ l. Held tracked s.tick_index l.tracker l.trace)
            (λ l. Held tracked s.tick_index l.tracker l.trace)
            r
        → Ends (λ _. Waits) Ended (r.0, record s { link = r.1 })
    rejected s h =
        on_link-Ends env fl ch parse range cfg direction config pv_range tracked s h (λ _ l k. k)
          (λ l k. (s.tick_index, k))

    reject_tick-Keeps :
        (evidence : Bool) (s : PollState W F)
        → G s
        → Ends Keeps Ended (reject_tick env fl ch parse range cfg tick before quality evidence s)
    unfolding reject_tick
    reject_tick-Keeps false s h = stopped (s.tick_index, Linked-Held h.0)
    reject_tick-Keeps true s h =
        Ends-then_with
          (rejected s (
            reject_replacement-Held env tracked s.tick_index fl cfg.manipulated_variable
              cfg.op_timeout_secs cfg.allow_uncertain_quality s.link (Linked-Held h.0)))
          (λ _ t k.
            Ends-then_with
              (store-Held env fl ch parse range cfg direction config pv_range tracked tick before
                quality t k)
              (λ _ u g. done g))

  allowed_of :
      {A : Type 0} (p : Option A) (b : Bool) → (not (is_none p) && b) ≡ false → b ≡ true → p ≡ none
  allowed_of none b h k = refl
  allowed_of (some a) b h k = cc

  pub step_tick-Keeps :
      (tick : Tick F) (quality : SampleQuality) (observed : ℕ) (evidence : Bool) (s : PollState W F)
      → G s
      → Ends Keeps Ended (step_tick env fl ch parse range cfg tick quality observed evidence s)
  unfolding step_tick
  step_tick-Keeps tick quality observed evidence s h =
      let before = state fl s.engine in
      let stepped = step fl s.engine tick in
      if_cases (λ (m : Io (PollState W F) (RunError E) (Next F)). Ends Keeps Ended (m s))
        (not (is_none (pending_of s.link)) && any_write stepped.1) _ _
        (λ _. reject_tick-Keeps tick before quality observed evidence s h)
        (λ e.
          after_step-Keeps tick before quality observed stepped.1 (record s { engine = stepped.0 })
            (step-Asked fl direction config pv_range small s.engine tick h.1.inv h.1.matches)
            (allowed_of (pending_of s.link) (any_write stepped.1) e)
            (
              h.0,
              record {
                inv = step-Inv fl s.engine tick small h.1.inv;
                matches = Matches-step fl direction config pv_range s.engine tick h.1.matches;
                measured = h.1.measured;
              },
            ))
