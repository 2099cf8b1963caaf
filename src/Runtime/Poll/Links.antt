-- ===== src/Runtime/Poll/Links.antt =====
-- What the code that tracks a command, Runtime/Tracking, keeps of the invariant of the trace.
pub mod Reads
use Prim.Native.String.{String}
use bhtune.Common.{
  ℕ, zero, suc, refl, Bool, List, Option, none, some, ◌&&◌, ltb, if_cases, Option-cases, inl, inr,
}
use bhtune.Common.Text.{Text, Chars}
use bhtune.Common.Result.{Result, ok, err, map_err, Result-cases}
use bhtune.Common.Io.{Io, Ends, done, stopped, Ends-then_with, Ends-lift}
use bhtune.Float.{Floats}
use bhtune.Runtime.Outcome.{AbortReason, Quality}
use bhtune.Runtime.Quality.{TagValue, SampleQuality, check_quality}
use bhtune.Runtime.Actuation.{
  PendingMvActuation, MvActuationTracker, MvVerificationTrigger, scheduled, deadline_due,
  MvVerificationCallLimit, MvVerificationLimitKind, confirmation_limit, deadline_limit,
  restore_limit, MvActuationKind, accepted_command,
}
use bhtune.Runtime.Actuation.Verify.{
  MvActuationStatus, VerifyError, PendingMvVerificationValue, required,
}
use bhtune.Runtime.World.{
  World, Link, Call, RunError, of_verify_error, TickOperation, op_completed, op_cancelled,
  op_timed_out, instant_now, require_invariant, read_until, insert_pending,
}
use bhtune.Runtime.Tracking.{
  PendingMvVerificationResult, readback_value, abort, record_final, finalize_actuation_best_effort,
  take_pending, accept_readback, resolve_pending_mv_read, finalize_readback, new_row, pending_of,
  reject_replacement_for_pending_actuation, record_accepted_at_switch,
}
use bhtune.Runtime.Tracking.Reading.{
  is_scheduled, PendingMvVerificationRead, numeric_operation, ready, deadline_timed_out,
  restore_timed_out, read_limit, after_read, timed_out_at, read_pending_mv_verification,
  judge_result, conclude_read, verify_pending_mv_actuation, resolve_pending_mv_poll,
}
use bhtune.Runtime.Poll.Trace.{Linked, Held, Linked-Held, Held-row, Held-taken, Written}
use bhtune.Runtime.Poll.Trace.Accepted.{Written-Held, Written-row, Written-accepted}
use bhtune.Runtime.Poll.Trace.Judged.{Concluded, finalize-Concludes}

module _ {W F E : Type 0} (env : World W F E) (tracked : Bool) (n : ℕ) where
  abbrev IsLinked : Link W F → Type 0
  IsLinked s = Linked tracked n s.tracker s.trace

  abbrev IsHeld : Link W F → Type 0
  IsHeld s = Held tracked n s.tracker s.trace

  abbrev KeepsHeld : {A : Type 0} → Io (Link W F) (RunError E) A → Type 0
  KeepsHeld m = (s : Link W F) → IsHeld s → Ends (λ _. IsHeld) IsHeld (m s)

  pub record_final-Held :
      (p : PendingMvActuation F) (at : ℕ) (readback : Option F) (quality : Option SampleQuality)
      (status : MvActuationStatus) (detail : String)
      → KeepsHeld (record_final env p at readback quality status detail)
  unfolding record_final
  record_final-Held p at readback quality status detail s h = elim (Option-cases p.id) [
    | inl e ↦ rw e (done h)
    | inr (id, e) ↦ rw e (done (Held-row _ _ h))
  ]

  finalize-Held :
      (p : PendingMvActuation F) (status : MvActuationStatus) (detail : String)
      → KeepsHeld (finalize_actuation_best_effort env p status detail)
  unfolding finalize_actuation_best_effort
  finalize-Held p status detail s h = elim (Option-cases p.id) [
    | inl e ↦ rw e (done h)
    | inr (id, e) ↦ rw e (done (Held-row _ _ h))
  ]

  pub take_pending-Held : (message : String) → KeepsHeld (take_pending message)
  unfolding take_pending
  take_pending-Held message s h =
      let taken = Held-taken s.tracker s.trace h in Ends-lift _ _ (λ _ _. taken) taken

  -- What a read leaves: the invariant unless the run is aborted.
  abbrev pub ReadLeaves : PendingMvVerificationResult F → Link W F → Type 0
  ReadLeaves (readback_value _) s = IsLinked s
  ReadLeaves (abort _) s = IsHeld s

  abbrev pub Leaves : Option (AbortReason F) → Link W F → Type 0
  Leaves none s = IsLinked s
  Leaves (some _) s = IsHeld s

  module _ {D : Type 0} (fl : Floats F D) (tag : Text) (op_timeout_secs : ℕ)
      (allow_uncertain : Bool) where
    accept_readback-Leaves :
        (at now : ℕ) (v : F × Quality) (s : Link W F)
        → IsLinked s
        → Ends ReadLeaves IsHeld
            (accept_readback env fl tag op_timeout_secs allow_uncertain at now v s)
    unfolding accept_readback
    accept_readback-Leaves at now (readback, quality) s h =
        elim (Result-cases (check_quality {E = E} tag quality allow_uncertain)) [
          | inl (a, e) ↦ rw (accept_readback, e) (done h)
          | inr (a, e) ↦
              rw (accept_readback, e)
                (Ends-then_with (take_pending-Held _ s (Linked-Held h))
                  (λ p t k. Ends-then_with (record_final-Held p _ _ _ _ _ t k) (λ _ u g. done g)))
        ]

    pub resolve_pending_mv_read-Leaves :
        (r : Result (RunError E) (TickOperation (F × Quality))) (at now : ℕ) (s : Link W F)
        → IsLinked s
        → Ends ReadLeaves IsHeld
            (resolve_pending_mv_read env fl tag op_timeout_secs allow_uncertain r at now s)
    unfolding resolve_pending_mv_read
    resolve_pending_mv_read-Leaves (ok (op_completed v)) at now s h =
        accept_readback-Leaves at now v s h
    resolve_pending_mv_read-Leaves (err e) at now s h =
        Ends-then_with (take_pending-Held _ s (Linked-Held h))
          (λ p t k. Ends-then_with (record_final-Held p _ _ _ _ _ t k) (λ _ u g. stopped g))
    resolve_pending_mv_read-Leaves (ok op_cancelled) at now s h =
        Ends-then_with (take_pending-Held _ s (Linked-Held h))
          (λ p t k. Ends-then_with (finalize-Held p _ _ t k) (λ _ u g. done g))
    resolve_pending_mv_read-Leaves (ok op_timed_out) at now s h =
        Ends-then_with (take_pending-Held _ s (Linked-Held h))
          (λ p t k. Ends-then_with (record_final-Held p _ _ _ _ _ t k) (λ _ u g. done g))

    Concluded-Leaves :
        (r : Result (VerifyError E) (Option (AbortReason F))) (s : Link W F)
        → Concluded tracked n r s.tracker s.trace
        → Ends Leaves IsHeld (map_err of_verify_error r, s)
    unfolding of_verify_error
    Concluded-Leaves (ok none) s h = done h
    Concluded-Leaves (ok (some reason)) s h = done h
    Concluded-Leaves (err e) s h = stopped h

    finalize_from :
        (v : PendingMvVerificationValue F) (trigger : MvVerificationTrigger) (world : W)
        (trace : List (Call F)) (tracker : Option (MvActuationTracker F))
        → Linked tracked n tracker trace
        → Ends Leaves IsHeld (
            finalize_readback env fl tag op_timeout_secs allow_uncertain v trigger required
              (record { world = world; trace = trace; tracker = tracker }))
    unfolding finalize_readback
    finalize_from v trigger world trace none h = stopped (Linked-Held h)
    finalize_from v trigger world trace (some t) h =
        Concluded-Leaves _ _
          (finalize-Concludes fl (λ c. (env.update_row world c).0) n trace v tag trigger t
            h).concluded

    pub finalize_readback-Leaves :
        (v : PendingMvVerificationValue F) (trigger : MvVerificationTrigger) (s : Link W F)
        → IsLinked s
        → Ends Leaves IsHeld
            (finalize_readback env fl tag op_timeout_secs allow_uncertain v trigger required s)
    finalize_readback-Leaves v trigger s h = finalize_from v trigger s.world s.trace s.tracker h

    pub reject_replacement-Held : KeepsHeld (reject_replacement_for_pending_actuation env tag)
    unfolding reject_replacement_for_pending_actuation
    reject_replacement-Held s h = Ends-then_with (take_pending-Held _ s h) (λ p t k.
        elim (Option-cases p.last_readback) [
          | inl e ↦ rw e (Ends-then_with (finalize-Held p _ _ t k) (λ _ u g. done g))
          | inr (x, e) ↦ rw e (Ends-then_with (finalize-Held p _ _ t k) (λ _ u g. done g))
        ])

  pub record_accepted-Linked :
      (t : MvActuationTracker F) (kind : MvActuationKind) (target : F)
      (switch_tick switch_instant first_check_at accepted_at accepted_instant : ℕ) (tolerance : F)
      (world : W) (trace : List (Call F))
      → Written tracked n (some t) trace
      → Ends
          (λ _. IsLinked)
          IsHeld
          (record_accepted_at_switch env t kind target switch_tick switch_instant first_check_at
            accepted_at accepted_instant tolerance
            (record { world = world; trace = trace; tracker = some t }))
  unfolding record_accepted_at_switch insert_pending accepted_command
  record_accepted-Linked t kind target tick instant first at now tolerance world trace h =
      let row = new_row t kind target at tolerance in
      elim (Result-cases (env.insert_pending world row).0) [
        | inl (id, e) ↦ rw e (done (Written-accepted t _ _ id refl (Written-row t trace row h)))
        | inr (x, e) ↦ rw e (stopped (Written-Held (some t) _ (Written-row t trace row h)))
      ]
