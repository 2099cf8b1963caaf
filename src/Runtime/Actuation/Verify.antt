-- ===== src/Runtime/Actuation/Verify.antt =====
-- Judging a readback: `finalize_pending_mv_verification` and what it calls.
use Prim.Native.String.{String}
use bhtune.Common.{
  ℕ, Bool, true, false, ◌||◌, leb, ltb, List, [], ◌∷◌, Option, none, some, if◌then◌else◌,
}
use bhtune.Common.Text.{Text}
use bhtune.Common.Result.{Result, ok, err}
use bhtune.Float.{Floats}
use bhtune.Runtime.Outcome.{AbortReason}
use bhtune.Runtime.Quality.{SampleQuality}
use bhtune.Runtime.Actuation.{
  PendingMvActuation, MvActuationTracker, MvVerificationTrigger, scheduled, deadline_due,
  actuation_abort_reason, actuation_matches,
}

pub data ActuationAuditPolicy : Type 0 where
  required best_effort : ActuationAuditPolicy

pub data MvActuationStatus : Type 0 where
  pending_status confirmed_status failed_status unverified_status superseded_status :
      MvActuationStatus

-- The calls that update a row of the audit table: its id, the time, the readback and its quality, the
-- status and the detail, of which only the fixed part of the text is kept.
pub data AuditCall (F : Type 0) : Type 0 where
  record_observation : ℕ → ℕ → Option F → Option SampleQuality → AuditCall F
  record_final_observation :
      ℕ → ℕ → Option F → Option SampleQuality → MvActuationStatus → Option String → AuditCall F
  finalize_row : ℕ → MvActuationStatus → String → AuditCall F

pub record PendingMvVerificationValue (F : Type 0) : Type 0 where
  pub readback : F
  pub sample_quality : SampleQuality
  pub checked_at : ℕ
  pub checked_instant : ℕ

-- `require_invariant` fails by its message, an audit call by the table's error.
pub data VerifyError (E : Type 0) : Type 0 where
  invariant : String → VerifyError E
  audit : E → VerifyError E

-- What a judgement leaves: the tracker, the audit calls and the answer.
pub record Judged (F E : Type 0) : Type 0 where
  pub tracker : MvActuationTracker F
  pub calls : List (AuditCall F)
  pub answer : Result (VerifyError E) (Option (AbortReason F))

abbrev is_best_effort : ActuationAuditPolicy → Bool
is_best_effort best_effort = true
is_best_effort required = false

abbrev pub is_deadline : MvVerificationTrigger → Bool
is_deadline scheduled = false
is_deadline deadline_due = true

-- `db` answers an audit call.
module _ {F D E : Type 0} (fl : Floats F D) (db : AuditCall F → Result E ℕ) where
  -- An audit call's failure stops the run unless the policy is best effort.
  abbrev stops : ActuationAuditPolicy → Result E ℕ → Option E
  stops policy (ok _) = none
  stops policy (err e) = if is_best_effort policy then none else some e

  -- `record_final_actuation_observation`, whose failure is only logged.
  unfoldable pub failed_calls :
      PendingMvActuation F → PendingMvVerificationValue F → String → List (AuditCall F)
  failed_calls p v detail = elim p.id [
    | none ↦ []
    | some id ↦
        record_final_observation id v.checked_at (some v.readback) (some v.sample_quality)
          failed_status (some detail)
        ∷ []
  ]

  -- The calls that keep the command pending, or confirm it, and what makes them stop the run.
  unfoldable pub audited :
      PendingMvActuation F
      → (ℕ → AuditCall F)
      → ActuationAuditPolicy
      → List (AuditCall F) × Option E
  audited p call policy = elim p.id [
    | none ↦ ([], none)
    | some id ↦ (call id ∷ [], stops policy (db (call id)))
  ]

  -- The judgement by an audited call: one tracker if the run goes on, another if the call stops it.
  unfoldable pub after_audit :
      List (AuditCall F) × Option E → MvActuationTracker F → MvActuationTracker F → Judged F E
  after_audit (calls, none) accepted stopped = record {
    tracker = accepted;
    calls = calls;
    answer = ok none;
  }
  after_audit (calls, some e) accepted stopped = record {
    tracker = stopped;
    calls = calls;
    answer = err (audit e);
  }

  -- The tracker here has no pending command: it has been taken.
  unfoldable pub confirm_pending_mv_actuation :
      MvActuationTracker F
      → PendingMvActuation F
      → PendingMvVerificationValue F
      → ActuationAuditPolicy
      → Judged F E
  unfolding audited after_audit
  confirm_pending_mv_actuation tracker p v policy =
      after_audit
        (audited p
          (λ id.
            record_final_observation id v.checked_at (some v.readback) (some v.sample_quality)
              confirmed_status none)
          policy)
        (record tracker { confirmed_mv = some p.target }) (record tracker { pending = some p })

  -- The readback misses, and there is time left.
  unfoldable pub keep_pending :
      MvActuationTracker F
      → PendingMvActuation F
      → PendingMvVerificationValue F
      → ActuationAuditPolicy
      → Judged F E
  unfolding audited after_audit
  keep_pending tracker p v policy =
      after_audit
        (audited p
          (λ id. record_observation id v.checked_at (some v.readback) (some v.sample_quality))
          policy)
        (record tracker { pending = some (record p { last_readback = some v.readback }) }) tracker

  unfoldable pub give_up :
      Text
      → MvActuationTracker F
      → PendingMvActuation F
      → PendingMvVerificationValue F
      → String
      → Judged F E
  unfolding failed_calls actuation_abort_reason
  give_up tag tracker p v detail = record {
    tracker = tracker;
    calls = failed_calls p v detail;
    answer = ok (some (actuation_abort_reason tag p (some v.readback) v.checked_instant));
  }

  -- The judgement, from the taken command on.
  unfoldable pub judge :
      Text
      → MvActuationTracker F
      → PendingMvActuation F
      → PendingMvVerificationValue F
      → MvVerificationTrigger
      → ActuationAuditPolicy
      → Judged F E
  unfolding actuation_matches
  judge tag tracker p v trigger policy =
      let matches = actuation_matches fl p.target v.readback p.tolerance in
      if ltb p.deadline v.checked_instant
      then give_up tag tracker p v (
          if matches
          then "MV readback matched the target only after the confirmation deadline"
          else "MV readback remained outside tolerance after the confirmation deadline")
      else if matches
      then confirm_pending_mv_actuation tracker p v policy
      else if is_deadline trigger || leb p.deadline v.checked_instant
      then give_up tag tracker p v
          "MV readback remained outside tolerance at the confirmation deadline"
      else keep_pending tracker p v policy

  unfoldable pub finalize_pending_mv_verification :
      Text
      → MvActuationTracker F
      → PendingMvVerificationValue F
      → MvVerificationTrigger
      → ActuationAuditPolicy
      → Judged F E
  unfolding judge
  finalize_pending_mv_verification tag tracker v trigger policy = elim tracker.pending [
    | none ↦ record {
      tracker = tracker;
      calls = [];
      answer = err (invariant "pending actuation existed before the verification result");
    }
    | some p ↦ judge tag (record tracker { pending = none }) p v trigger policy
  ]
