-- ===== src/Runtime/Poll/Links/Reads.antt =====
-- What the bounded read of a command and its judgement keep of the invariant of the trace.
use Prim.Native.String.{String}
use bhtune.Common.{
  ℕ, zero, suc, Bool, Option, none, some, ◌&&◌, ltb, if_cases, Option-cases, inl, inr,
}
use bhtune.Common.Text.{Text, Chars}
use bhtune.Common.Result.{Result}
use bhtune.Common.Io.{Io, Ends, done, stopped, Ends-then_with, Ends-lift}
use bhtune.Float.{Floats}
use bhtune.Runtime.Outcome.{AbortReason}
use bhtune.Runtime.Quality.{TagValue}
use bhtune.Runtime.Actuation.{
  PendingMvActuation, MvVerificationTrigger, scheduled, deadline_due, MvVerificationCallLimit,
  MvVerificationLimitKind, confirmation_limit, deadline_limit, restore_limit,
}
use bhtune.Runtime.Actuation.Verify.{required}
use bhtune.Runtime.World.{
  World, Link, RunError, TickOperation, instant_now, require_invariant, read_until,
}
use bhtune.Runtime.Tracking.{PendingMvVerificationResult, readback_value, abort, pending_of}
use bhtune.Runtime.Tracking.Reading.{
  is_scheduled, PendingMvVerificationRead, numeric_operation, ready, deadline_timed_out,
  restore_timed_out, read_limit, after_read, timed_out_at, read_pending_mv_verification,
  judge_result, conclude_read, verify_pending_mv_actuation, resolve_pending_mv_poll,
}
use bhtune.Runtime.Poll.Trace.{Linked, Held, Linked-Held}
use bhtune.Runtime.Poll.Links.{
  Leaves, ReadLeaves, record_final-Held, take_pending-Held, resolve_pending_mv_read-Leaves,
  finalize_readback-Leaves,
}

module _ {W F E : Type 0} (env : World W F E) (tracked : Bool) (n : ℕ) {D : Type 0}
    (fl : Floats F D) (tag : Text) (op_timeout_secs : ℕ) (allow_uncertain : Bool) (ch : Chars)
    (parse : Text → Option F) where
  abbrev IsLinked : Link W F → Type 0
  IsLinked s = Linked tracked n s.tracker s.trace

  abbrev IsHeld : Link W F → Type 0
  IsHeld s = Held tracked n s.tracker s.trace

  abbrev Keeps : Option (AbortReason F) → Link W F → Type 0
  Keeps = Leaves env tracked n

  abbrev ReadKeeps : PendingMvVerificationResult F → Link W F → Type 0
  ReadKeeps = ReadLeaves env tracked n

  judge_result-Leaves :
      (trigger : MvVerificationTrigger) (r : PendingMvVerificationResult F) (s : Link W F)
      → ReadKeeps r s
      → Ends Keeps IsHeld
          (judge_result env fl ch parse tag op_timeout_secs allow_uncertain trigger required r s)
  unfolding judge_result
  judge_result-Leaves trigger (abort reason) s h = done h
  judge_result-Leaves trigger (readback_value v) s h =
      finalize_readback-Leaves env tracked n fl tag op_timeout_secs allow_uncertain v trigger s h

  pub resolve_pending_mv_poll-Leaves :
      (values : TickOperation (Text → Option TagValue)) (at now : ℕ) (s : Link W F)
      → IsLinked s
      → Ends
          (λ r. Keeps r.0)
          IsHeld
          (resolve_pending_mv_poll env fl ch parse tag op_timeout_secs allow_uncertain values at now
            s)
  unfolding resolve_pending_mv_poll
  resolve_pending_mv_poll-Leaves values at now s h =
      Ends-then_with
        (resolve_pending_mv_read-Leaves env tracked n fl tag op_timeout_secs allow_uncertain
          (numeric_operation env fl ch parse tag values) at now s h)
        (λ r t k. Ends-then_with (judge_result-Leaves scheduled r t k) (λ a u g. done g))

  -- What the bounded read leaves: a command that is still out if it is ready to be judged.
  abbrev Reads : PendingMvVerificationRead F E → Link W F → Type 0
  Reads (ready _ _ _) s = IsLinked s
  Reads (deadline_timed_out _ _ _) s = IsHeld s
  Reads (restore_timed_out _ _ _) s = IsHeld s

  conclude_read-Leaves :
      (trigger : MvVerificationTrigger) (r : PendingMvVerificationRead F E) (s : Link W F)
      → Reads r s
      → Ends Keeps IsHeld
          (conclude_read env fl ch parse tag op_timeout_secs allow_uncertain trigger required r s)
  unfolding conclude_read
  conclude_read-Leaves trigger (deadline_timed_out p at now) s h =
      Ends-then_with (record_final-Held env tracked n p _ _ _ _ _ s h) (λ _ t k. done k)
  conclude_read-Leaves trigger (restore_timed_out p at now) s h =
      Ends-then_with (record_final-Held env tracked n p _ _ _ _ _ s h) (λ _ t k. done k)
  conclude_read-Leaves trigger (ready operation at now) s h =
      Ends-then_with
        (resolve_pending_mv_read-Leaves env tracked n fl tag op_timeout_secs allow_uncertain
          operation at now s h)
        (λ r t k. judge_result-Leaves trigger r t k)

  timed_out_at-Reads :
      (result : PendingMvActuation F → ℕ → ℕ → PendingMvVerificationRead F E) (message : String)
      (s : Link W F)
      → ((p : PendingMvActuation F) (at now : ℕ) (t : Link W F)
          → IsHeld t
          → Reads (result p at now) t)
      → IsHeld s
      → Ends Reads IsHeld (timed_out_at env fl ch parse result message s)
  unfolding timed_out_at
  timed_out_at-Reads result message s as_read h =
      Ends-then_with (take_pending-Held env tracked n message s h)
        (λ p t k. done (as_read p _ _ (instant_now env t).1 k))

  after_read-Reads :
      (retry : Io (Link W F) (RunError E) (PendingMvVerificationRead F E))
      (kind : MvVerificationLimitKind)
      (answer : Option (Result E (TickOperation (Option TagValue)))) (s : Link W F)
      → IsLinked s
      → ((t : Link W F) → IsLinked t → Ends Reads IsHeld (retry t))
      → Ends Reads IsHeld (after_read env fl ch parse tag retry kind answer s)
  unfolding after_read
  after_read-Reads retry confirmation_limit none s h again = again s h
  after_read-Reads retry deadline_limit none s h again =
      timed_out_at-Reads deadline_timed_out _ s (λ _ _ _ _ g. g) (Linked-Held h)
  after_read-Reads retry restore_limit none s h again =
      timed_out_at-Reads restore_timed_out _ s (λ _ _ _ _ g. g) (Linked-Held h)
  after_read-Reads retry kind (some operation) s h again =
      Ends-then_with
        (Ends-lift (require_invariant (pending_of s) _) (instant_now env s).1 (λ p e. h)
          (Linked-Held h))
        (λ p u g. done g)

  read_pending-Reads :
      (fuel : ℕ) (trigger : MvVerificationTrigger) (limit : MvVerificationCallLimit) (s : Link W F)
      → IsLinked s
      → Ends Reads IsHeld (read_pending_mv_verification env fl ch parse fuel tag trigger limit s)
  unfolding read_pending_mv_verification read_limit read_until
  read_pending-Reads zero trigger limit s h = stopped (Linked-Held h)
  read_pending-Reads (suc n) scheduled limit s h =
      Ends-then_with (Ends-lift (require_invariant (pending_of s) _) s (λ p e. h) (Linked-Held h))
        (λ p t k.
          after_read-Reads (read_pending_mv_verification env fl ch parse n tag deadline_due limit) _
            _ _ k (read_pending-Reads n deadline_due limit))
  read_pending-Reads (suc n) deadline_due limit s h =
      Ends-then_with (Ends-lift (require_invariant (pending_of s) _) s (λ p e. h) (Linked-Held h))
        (λ p t k.
          after_read-Reads (read_pending_mv_verification env fl ch parse n tag deadline_due limit) _
            _ _ k (read_pending-Reads n deadline_due limit))

  pub verify_pending_mv_actuation-Leaves :
      (fuel : ℕ) (trigger : MvVerificationTrigger) (limit : MvVerificationCallLimit) (s : Link W F)
      → IsLinked s
      → Ends Keeps IsHeld (
          verify_pending_mv_actuation env fl ch parse tag op_timeout_secs allow_uncertain fuel
            trigger limit required s)
  unfolding verify_pending_mv_actuation
  verify_pending_mv_actuation-Leaves fuel trigger limit s h = elim (Option-cases (pending_of s)) [
    | inl e ↦ rw e (done h)
    | inr (p, e) ↦ rw e (
        if_cases
          (λ (m : Io (Link W F) (RunError E) (Option (AbortReason F))).
            Ends Keeps IsHeld (m (instant_now env s).1))
          (is_scheduled trigger && ltb (env.now s.world).0 p.first_check_at) _ _ (λ _. done h)
          (λ _.
            Ends-then_with (read_pending-Reads fuel trigger limit (instant_now env s).1 h)
              (λ r t k. conclude_read-Leaves trigger r t k)))
  ]
