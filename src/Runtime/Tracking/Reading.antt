-- ===== src/Runtime/Tracking/Reading.antt =====
-- The bounded read of a pending command: `verify_pending_mv_actuation_with_timing`, its loop
-- `read_pending_mv_verification_with_timing`, and the check by a poll's batch,
-- `resolve_pending_mv_poll`. The observation of durations is left out: it changes nothing else.
pub mod Total
use Prim.Native.String.{String}
use bhtune.Common.{ℕ, zero, suc, Bool, true, false, ◌&&◌, ltb, Option, none, some, if◌then◌else◌}
use bhtune.Common.Text.{Text, Chars}
use bhtune.Common.Result.{Result, ok, err, map_err}
use bhtune.Common.Io.{Io, ◌>>=◌, ◌>>◌, pure, throw, gets, lift}
use bhtune.Float.{Floats}
use bhtune.Runtime.Outcome.{Quality, AbortReason}
use bhtune.Runtime.Quality.{TagValue, SampleQuality, read_numeric_from_batch}
use bhtune.Runtime.Actuation.{
  PendingMvActuation, MvVerificationTrigger, scheduled, deadline_due, MvVerificationLimitKind,
  confirmation_limit, deadline_limit, restore_limit, MvVerificationCallLimit,
  mv_verification_read_limit, actuation_abort_reason,
}
use bhtune.Runtime.Actuation.Verify.{ActuationAuditPolicy, required, unverified_status}
use bhtune.Runtime.World.{
  World, Link, RunError, TickOperation, op_completed, op_cancelled, op_timed_out, reading, external,
  out_of_fuel, instant_now, read_until, require_invariant,
}
use bhtune.Runtime.Tracking.{
  PendingMvVerificationResult, readback_value, abort, checked_at_for_pending, pending_of,
  take_pending, record_final, resolve_pending_mv_read, finalize_readback,
}

pub data PendingMvVerificationRead (F E : Type 0) : Type 0 where
  ready : Result (RunError E) (TickOperation (F × Quality)) → ℕ → ℕ → PendingMvVerificationRead F E
  deadline_timed_out restore_timed_out :
      PendingMvActuation F → ℕ → ℕ → PendingMvVerificationRead F E

abbrev pub is_scheduled : MvVerificationTrigger → Bool
is_scheduled scheduled = true
is_scheduled deadline_due = false

abbrev is_value : {F : Type 0} → PendingMvVerificationResult F → Bool
is_value (abort _) = false
is_value (readback_value _) = true

module _ {W F D E : Type 0} (env : World W F E) (fl : Floats F D) (ch : Chars)
    (parse : Text → Option F) where
  -- The end of a call whose value is parsed, `read_numeric_sample` or `read_numeric_from_batch`.
  unfoldable pub numeric_operation :
      Text
      → TickOperation (Text → Option TagValue)
      → Result (RunError E) (TickOperation (F × Quality))
  unfolding read_numeric_from_batch
  numeric_operation tag (op_completed values) =
      elim (read_numeric_from_batch {E = E} fl ch parse values tag) [
        | ok v ↦ ok (op_completed v)
        | err e ↦ err (reading e)
      ]
  numeric_operation tag op_cancelled = ok op_cancelled
  numeric_operation tag op_timed_out = ok op_timed_out

  abbrev pub single : TickOperation (Option TagValue) → TickOperation (Text → Option TagValue)
  single (op_completed v) = op_completed (λ _. v)
  single op_cancelled = op_cancelled
  single op_timed_out = op_timed_out

  unfoldable pub numeric_read :
      Text
      → Result E (TickOperation (Option TagValue))
      → Result (RunError E) (TickOperation (F × Quality))
  unfolding numeric_operation
  numeric_read tag (err e) = err (external e)
  numeric_read tag (ok op) = numeric_operation tag (single op)

  -- The limit of the read; only a read at the deadline looks at the clock for it.
  unfoldable pub read_limit :
      MvVerificationTrigger
      → PendingMvActuation F
      → MvVerificationCallLimit
      → Io (Link W F) (RunError E) (ℕ × MvVerificationLimitKind)
  unfolding instant_now mv_verification_read_limit
  read_limit scheduled p limit = pure (mv_verification_read_limit scheduled p limit 0)
  read_limit deadline_due p limit = do
    now ← instant_now env
    pure (mv_verification_read_limit deadline_due p limit now)

  unfoldable pub timed_out_at :
      (PendingMvActuation F → ℕ → ℕ → PendingMvVerificationRead F E)
      → String
      → Io (Link W F) (RunError E) (PendingMvVerificationRead F E)
  unfolding take_pending instant_now checked_at_for_pending
  timed_out_at result message = do
    p ← take_pending message
    now ← instant_now env
    pure (result p (checked_at_for_pending p now) now)

  -- What follows one read; `retry` is the loop's next round, at the deadline.
  unfoldable pub after_read :
      Text
      → Io (Link W F) (RunError E) (PendingMvVerificationRead F E)
      → MvVerificationLimitKind
      → Option (Result E (TickOperation (Option TagValue)))
      → Io (Link W F) (RunError E) (PendingMvVerificationRead F E)
  unfolding instant_now checked_at_for_pending numeric_read timed_out_at
  after_read tag retry kind (some operation) = do
    now ← instant_now env
    s ← gets pending_of
    p ← lift (require_invariant s "pending actuation existed after the bounded read")
    pure (ready (numeric_read tag operation) (checked_at_for_pending p now) now)
  after_read tag retry confirmation_limit none = retry
  after_read tag retry deadline_limit none =
      timed_out_at deadline_timed_out "pending actuation existed before the deadline read"
  after_read tag retry restore_limit none =
      timed_out_at restore_timed_out "pending actuation existed before the bounded read"

  -- The loop, on fuel: two rounds are enough (`Reading/Total`).
  unfoldable pub read_pending_mv_verification :
      ℕ
      → Text
      → MvVerificationTrigger
      → MvVerificationCallLimit
      → Io (Link W F) (RunError E) (PendingMvVerificationRead F E)
  read_pending_mv_verification zero tag trigger limit = throw out_of_fuel
  read_pending_mv_verification (suc n) tag trigger limit =
      let retry = read_pending_mv_verification n tag deadline_due limit in
      do
        s ← gets pending_of
        p ← lift (require_invariant s "pending actuation existed before the bounded read")
        (deadline, kind) ← read_limit trigger p limit
        answer ← read_until env deadline tag
        after_read tag retry kind answer

  module _ (tag : Text) (op_timeout_secs : ℕ) (allow_uncertain : Bool) where
    -- The judgement of a read's value.
    unfoldable pub judge_result :
        MvVerificationTrigger
        → ActuationAuditPolicy
        → PendingMvVerificationResult F
        → Io (Link W F) (RunError E) (Option (AbortReason F))
    unfolding finalize_readback
    judge_result trigger policy (abort reason) = pure (some reason)
    judge_result trigger policy (readback_value v) =
        finalize_readback env fl tag op_timeout_secs allow_uncertain v trigger policy

    unfoldable pub conclude_read :
        MvVerificationTrigger
        → ActuationAuditPolicy
        → PendingMvVerificationRead F E
        → Io (Link W F) (RunError E) (Option (AbortReason F))
    unfolding record_final resolve_pending_mv_read judge_result actuation_abort_reason
    conclude_read trigger policy (deadline_timed_out p checked_at now) = do
      record_final env p checked_at p.last_readback none unverified_status
          "the fresh MV read at the confirmation deadline did not finish within its bounded verification window"
      pure (some (actuation_abort_reason tag p p.last_readback now))
    conclude_read trigger policy (restore_timed_out p checked_at now) = do
      record_final env p checked_at p.last_readback none unverified_status
          "the restore timeout elapsed before MV confirmation completed"
      pure (some (actuation_abort_reason tag p p.last_readback now))
    conclude_read trigger policy (ready operation checked_at now) = do
      result ←
          resolve_pending_mv_read env fl tag op_timeout_secs allow_uncertain operation checked_at
            now
      judge_result trigger policy result

    unfoldable pub verify_pending_mv_actuation :
        ℕ
        → MvVerificationTrigger
        → MvVerificationCallLimit
        → ActuationAuditPolicy
        → Io (Link W F) (RunError E) (Option (AbortReason F))
    unfolding instant_now read_pending_mv_verification conclude_read
    verify_pending_mv_actuation fuel trigger limit policy = do
      s ← gets pending_of
      elim s [
        | none ↦ pure none
        | some p ↦ do
          now ← instant_now env
          let judge_read = (do
            read ← read_pending_mv_verification fuel tag trigger limit
            conclude_read trigger policy read)
          (if is_scheduled trigger && ltb now p.first_check_at then pure none else judge_read)
      ]

    -- `resolve_pending_mv_poll`: the reason to abort, and whether the batch gave evidence.
    unfoldable pub resolve_pending_mv_poll :
        TickOperation (Text → Option TagValue)
        → ℕ
        → ℕ
        → Io (Link W F) (RunError E) (Option (AbortReason F) × Bool)
    unfolding numeric_operation resolve_pending_mv_read judge_result
    resolve_pending_mv_poll values checked_at now = do
      result ←
          resolve_pending_mv_read env fl tag op_timeout_secs allow_uncertain
            (numeric_operation tag values) checked_at now
      outcome ← judge_result scheduled required result
      pure (outcome, is_value result)
