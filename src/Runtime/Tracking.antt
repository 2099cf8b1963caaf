-- ===== src/Runtime/Tracking.antt =====
-- tune/actuation.rs, the code that awaits: recording an accepted command, reading it back within a
-- limit, and what each way of the read leaves of the tracker.
pub mod Reading
use Prim.Native.String.{String}
use bhtune.Common.{ℕ, ◌+◌, ◌-◌, Bool, List, [], ◌∷◌, ◌++◌, Option, none, some, map}
use bhtune.Common.Text.{Text, Chars}
use bhtune.Common.Result.{Result, ok, err, map_err}
use bhtune.Common.Io.{Io, ◌>>=◌, ◌>>◌, pure, throw, gets, modify, lift}
use bhtune.Float.{Floats}
use bhtune.Mrft.Engine.{seconds}
use bhtune.Runtime.Outcome.{
  Quality, AbortReason, user_interrupt, operation_timed_out, quality_rejected,
}
use bhtune.Runtime.Quality.{
  TagValue, SampleQuality, ReadError, sample_quality_from_driver, check_quality,
  read_numeric_from_batch,
}
use bhtune.Runtime.Actuation.{
  MvActuationKind, PendingMvActuation, MvActuationTracker, MvVerificationTrigger, scheduled,
  accept_pending, accepted_command, mv_actuation_confirmation_secs, actuation_abort_reason,
}
use bhtune.Runtime.Actuation.Verify.{
  ActuationAuditPolicy, MvActuationStatus, failed_status, unverified_status, AuditCall,
  record_final_observation, finalize_row, PendingMvVerificationValue,
  finalize_pending_mv_verification,
}
use bhtune.Runtime.World.{
  World, Link, RunError, broken_invariant, NewTuneMvActuation, TickOperation, op_completed,
  op_cancelled, op_timed_out, reading, external, of_verify_error, row_updated, instant_now,
  update_row_best_effort, insert_pending, require_invariant,
}

pub data PendingMvVerificationResult (F : Type 0) : Type 0 where
  readback_value : PendingMvVerificationValue F → PendingMvVerificationResult F
  abort : AbortReason F → PendingMvVerificationResult F

-- The wall clock of a check, from the sample that the command was made at.
unfoldable pub checked_at_for_pending : {F : Type 0} → PendingMvActuation F → ℕ → ℕ
checked_at_for_pending p checked_instant = p.switch_tick + (checked_instant - p.switch_instant)

-- The pending command of the tracker, if there are both.
abbrev pub pending_in : {F : Type 0} → Option (MvActuationTracker F) → Option (PendingMvActuation F)
pending_in none = none
pending_in (some t) = t.pending

abbrev pub pending_of : {W F : Type 0} → Link W F → Option (PendingMvActuation F)
pending_of s = pending_in s.tracker

abbrev pub without_pending :
    {F : Type 0} → Option (MvActuationTracker F) → Option (MvActuationTracker F)
without_pending none = none
without_pending (some t) = some (record t { pending = none })

-- `tracker.pending.take().require_invariant(message)`.
unfoldable pub take_pending :
    {W F E : Type 0} → String → Io (Link W F) (RunError E) (PendingMvActuation F)
take_pending message s =
    (require_invariant (pending_of s) message, record s { tracker = without_pending s.tracker })

-- The new row of a command; the next sequence and the previous command are the tracker's.
abbrev pub new_row :
    {F : Type 0} → MvActuationTracker F → MvActuationKind → F → ℕ → F → NewTuneMvActuation F
new_row t kind target accepted_at tolerance = record {
  sequence = t.next_sequence;
  kind = kind;
  commanded_at = accepted_at;
  target_mv = target;
  previous_commanded_mv = some t.previous_commanded_mv;
  tolerance = tolerance;
  confirmation_due_at = accepted_at + seconds mv_actuation_confirmation_secs;
}

module _ {W F E : Type 0} (env : World W F E) where
  abbrev after_calls : W → List (AuditCall F) → W
  after_calls w [] = w
  after_calls w (c ∷ cs) = after_calls (env.update_row w c).1 cs

  -- `record_final_actuation_observation`.
  unfoldable pub record_final :
      PendingMvActuation F
      → ℕ
      → Option F
      → Option SampleQuality
      → MvActuationStatus
      → String
      → Io (Link W F) (RunError E) (Unit {0})
  unfolding update_row_best_effort
  record_final p checked_at readback quality status detail = elim p.id [
    | none ↦ pure tt
    | some id ↦
        update_row_best_effort env
          (record_final_observation id checked_at readback quality status (some detail))
  ]

  unfoldable pub finalize_actuation_best_effort :
      PendingMvActuation F → MvActuationStatus → String → Io (Link W F) (RunError E) (Unit {0})
  unfolding update_row_best_effort
  finalize_actuation_best_effort p status detail = elim p.id [
    | none ↦ pure tt
    | some id ↦ update_row_best_effort env (finalize_row id status detail)
  ]

  -- `record_accepted_at_switch` on the tracker `t`.
  unfoldable pub record_accepted_at_switch :
      MvActuationTracker F
      → MvActuationKind
      → F
      → ℕ
      → ℕ
      → ℕ
      → ℕ
      → ℕ
      → F
      → Io (Link W F) (RunError E) (Unit {0})
  unfolding insert_pending accept_pending accepted_command
  record_accepted_at_switch t kind target switch_tick switch_instant first_check_at accepted_at
        accepted_instant tolerance =
      do
        id ← insert_pending env (new_row t kind target accepted_at tolerance)
        modify (λ s. record s {
          tracker = some (
              accept_pending t (
                accepted_command id kind target switch_tick switch_instant first_check_at
                  accepted_instant tolerance));
        })

  -- `reject_replacement_for_pending_actuation`.
  unfoldable pub reject_replacement_for_pending_actuation :
      Text → Io (Link W F) (RunError E) (AbortReason F)
  unfolding take_pending finalize_actuation_best_effort instant_now actuation_abort_reason
  reject_replacement_for_pending_actuation tag = do
    p ← take_pending "called only when an MV actuation is pending"
    elim p.last_readback [
      | none ↦
          finalize_actuation_best_effort p unverified_status
            "a replacement relay command was requested before an acceptable prior MV readback was available"
      | some _ ↦
          finalize_actuation_best_effort p failed_status
            "a replacement relay command was requested while the prior MV readback remained outside tolerance"
    ]
    now ← instant_now env
    pure (actuation_abort_reason tag p p.last_readback now)

  module _ {D : Type 0} (fl : Floats F D) (tag : Text) (op_timeout_secs : ℕ)
      (allow_uncertain : Bool) where
    -- The value of a completed read, refused if its quality is.
    unfoldable pub accept_readback :
        ℕ → ℕ → F × Quality → Io (Link W F) (RunError E) (PendingMvVerificationResult F)
    unfolding check_quality sample_quality_from_driver take_pending record_final
    accept_readback checked_at checked_instant (readback, quality) =
        let sample_quality = sample_quality_from_driver quality in
        elim (check_quality {E = E} tag quality allow_uncertain) [
          | ok _ ↦ pure (
              readback_value (record {
                readback = readback;
                sample_quality = sample_quality;
                checked_at = checked_at;
                checked_instant = checked_instant;
              }))
          | err _ ↦ do
            p ← take_pending "pending actuation existed before the verification read"
            record_final p checked_at (some readback) (some sample_quality) unverified_status
                "MV verification read reported OPC quality"
            pure (abort (quality_rejected tag quality))
        ]

    unfoldable pub resolve_pending_mv_read :
        Result (RunError E) (TickOperation (F × Quality))
        → ℕ
        → ℕ
        → Io (Link W F) (RunError E) (PendingMvVerificationResult F)
    unfolding accept_readback take_pending record_final finalize_actuation_best_effort
    resolve_pending_mv_read (err error) checked_at checked_instant = do
      p ← take_pending "pending actuation existed before the verification read"
      record_final p checked_at none none unverified_status "MV verification read failed"
      throw error
    resolve_pending_mv_read (ok (op_completed v)) checked_at checked_instant =
        accept_readback checked_at checked_instant v
    resolve_pending_mv_read (ok op_cancelled) checked_at checked_instant = do
      p ← take_pending "pending actuation existed before the verification read"
      finalize_actuation_best_effort p unverified_status
          "MV verification was interrupted before confirmation completed"
      pure (abort user_interrupt)
    resolve_pending_mv_read (ok op_timed_out) checked_at checked_instant = do
      p ← take_pending "pending actuation existed before the verification read"
      record_final p checked_at none none unverified_status
          "MV verification read did not complete within its time limit"
      pure (abort (operation_timed_out tag op_timeout_secs))

    -- `finalize_pending_mv_verification` with the world as the audit table.
    unfoldable pub finalize_readback :
        PendingMvVerificationValue F
        → MvVerificationTrigger
        → ActuationAuditPolicy
        → Io (Link W F) (RunError E) (Option (AbortReason F))
    unfolding finalize_pending_mv_verification of_verify_error
    finalize_readback v trigger policy s = elim s.tracker [
      | none ↦ throw (broken_invariant "a verification trigger requires an OPC DA tracker") s
      | some t ↦
          let db = λ (c : AuditCall F). (env.update_row s.world c).0 in
          let r = finalize_pending_mv_verification fl db tag t v trigger policy in
          (
            map_err of_verify_error r.answer,
            record s {
              tracker = some r.tracker;
              world = after_calls s.world r.calls;
              trace = s.trace ++ map row_updated r.calls;
            },
          )
    ]
