-- ===== src/Runtime/Poll/Ticks/Asked.antt =====
-- What a step asks for, and the record of an accepted write.
use bhtune.Common.{ℕ, ◌≡◌, sym, subst, Bool, List, [], ◌∷◌, Option, none, some, inl, inr}
use bhtune.Common.Text.{Text, Chars}
use bhtune.Common.Result.{ok, Result-cases}
use bhtune.Common.Io.{Ends, done}
use bhtune.Float.{Floats, SelfDiffSmall}
use bhtune.Process.{ControllerDirection}
use bhtune.LoopConfig.{LoopConfig}
use bhtune.Range.{PvRange}
use bhtune.Mrft.Engine.{MrftEngine, Completion, Tick, Action, write_mv, complete, step}
use bhtune.Mrft.Counting.{Inv}
use bhtune.Mrft.Actions.{step-StepShape}
use bhtune.Handoff.{IsMeasured, MeasuredAction, Matches, step-Measured}
use bhtune.Common.{All, arith}
use bhtune.Runtime.Actuation.{MvActuationTracker, relay, mv_actuation_tolerance}
use bhtune.Runtime.Timing.{TimeRange}
use bhtune.Runtime.World.{World, Call}
use bhtune.Runtime.Poll.{PollSettings, PollState}
use bhtune.Runtime.Poll.Stepping.{relay_tolerance, record_accepted_relay}
use bhtune.Runtime.Poll.Trace.{Written}
use bhtune.Runtime.Poll.Trace.Accepted.{Written-untracked}
use bhtune.Runtime.Poll.Links.{record_accepted-Linked}
use bhtune.Runtime.Poll.Ticks.{Sound, IsGood, IsEnded, on_link-Ends}

module _ {F D : Type 0} (fl : Floats F D) (direction : ControllerDirection) (config : LoopConfig F)
    (pv_range : PvRange F) where
  -- What a step of a sound engine asks for.
  pub data Asked : List (Action F) → Type 0 where
    nothing : Asked []
    relay_step : (v : F) → Asked (write_mv v ∷ [])
    snap_back :
        (v : F) (c : Completion F)
        → IsMeasured fl direction config pv_range c
        → Asked (write_mv v ∷ complete c ∷ [])

  pub step-Asked :
      (small : SelfDiffSmall fl) (e : MrftEngine F) (t : Tick F)
      → Inv fl e
      → Matches fl direction config pv_range e
      → Asked (step fl e t).1
  step-Asked small e t i m = elim (step-StepShape fl e t small i) [
    | inl (a, _, _, _) ↦ subst Asked (sym a) nothing
    | inr (inl (a, _, _, _, _)) ↦ subst Asked (sym a) (relay_step _)
    | inr (inr (a, _, _, _, _, _)) ↦
        let all_measured =
          subst (All (MeasuredAction fl direction config pv_range)) a
            (step-Measured fl direction config pv_range e t small i m) in
        subst Asked (sym a) (snap_back _ _ all_measured.1.0)
  ]

-- A tracker comes with a tolerance.
pub data Tolerated {F : Type 0} : Option (MvActuationTracker F) → Option F → Type 0 where
  no_tracker : {o : Option F} → Tolerated none o
  tolerance_of : {t : MvActuationTracker F} (tolerance : F) → Tolerated (some t) (some tolerance)

module _ {W F D E : Type 0} (env : World W F E) (fl : Floats F D) (ch : Chars)
    (parse : Text → Option F) (range : TimeRange) (cfg : PollSettings)
    (direction : ControllerDirection) (config : LoopConfig F) (pv_range : PvRange F)
    (tracked : Bool) where
  pub relay_tolerance-Tolerated :
      (tracker : Option (MvActuationTracker F)) (v : F) (o : Option F)
      → relay_tolerance env fl ch parse range cfg tracker v ≡ ok o
      → Tolerated tracker o
  unfolding relay_tolerance
  relay_tolerance-Tolerated none v o h = no_tracker
  relay_tolerance-Tolerated (some t) v none h =
      elim (Result-cases (mv_actuation_tolerance fl relay v t.previous_commanded_mv t.mv_span)) [
        | inl (a, e) ↦ absurd (ground arith)
        | inr (a, e) ↦ absurd (ground arith)
      ]
  relay_tolerance-Tolerated (some t) v (some x) h = tolerance_of x

  pub record_accepted-Good :
      {tracker : Option (MvActuationTracker F)} {tolerance : Option F}
      → Tolerated tracker tolerance
      → (v : F) (now observed : ℕ) (s : PollState W F) (world : W) (trace : List (Call F))
      → Written tracked s.tick_index tracker trace
      → Sound env fl ch parse range cfg direction config pv_range tracked s.engine s.completion
      → Ends
          (λ _. IsGood env fl ch parse range cfg direction config pv_range tracked)
          (IsEnded env fl ch parse range cfg direction config pv_range tracked)
          (record_accepted_relay env fl ch parse range cfg tracker tolerance v now observed
            (record s { link = record { world = world; trace = trace; tracker = tracker } }))
  unfolding record_accepted_relay
  record_accepted-Good no_tracker v now observed s world trace h sound =
      done (Written-untracked trace h, sound)
  record_accepted-Good (tolerance_of {t = t} tolerance) v now observed s world trace h sound =
      on_link-Ends env fl ch parse range cfg direction config pv_range tracked s
        (record_accepted-Linked env tracked s.tick_index t relay v _ _ _ _ _ tolerance
          (env.now world).1 trace h)
        (λ _ l k. (k, sound)) (λ l k. (s.tick_index, k))
