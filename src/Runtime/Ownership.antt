-- ===== src/Runtime/Ownership.antt =====
-- live_ownership.rs of bhtune-runtime: the guard of a live operation, and the driver that records each
-- write before it forwards it. A gateway answers the driver's calls, the database's and the question
-- whether the heartbeat task failed, which it may at any time. The texts of JSON values stand as the
-- values, and the times of rows are left out.
pub mod Audit
use bhtune.Common.{
  ℕ, Bool, true, false, not, List, [], ◌∷◌, push, Option, none, some, if◌then◌else◌,
}
use bhtune.Common.Text.{Text, text_eq}
use bhtune.Common.Result.{Result, ok, err, fail_if, map_err}
use bhtune.Common.Io.{Io, ◌>>=◌, ◌>>◌, modify, lift}
use bhtune.Float.{Floats}
use bhtune.Driver.{TagWrite, float, raw, WriteOutcome}
use bhtune.Runtime.Quality.{TagValue}

pub data LiveOperationKind : Type 0 where
  tune_operation pid_write_operation pid_revert_operation recovery_operation opc_write_operation :
      LiveOperationKind

-- The owner's row, as far as it does not change.
pub record LiveOwner : Type 0 where
  pub id : ℕ
  pub run_id : Option ℕ
  pub operation_kind : LiveOperationKind

-- The statuses that a write's step ends with. One that has begun has the status `Intent`.
pub data MutationStepStatus : Type 0 where
  confirmed_step failed_step : MutationStepStatus

pub data StepDetail (E : Type 0) : Type 0 where
  driver_accepted : StepDetail E
  driver_rejected : Option Text → StepDetail E
  driver_failed : E → StepDetail E

-- The intent of one write: its owner and run, its tag and value, and the value that the tag had.
pub record NewLiveMutationStep (F : Type 0) : Type 0 where
  pub owner_id : ℕ
  pub run_id : Option ℕ
  pub target_tag : Text
  pub target_value : TagWrite F
  pub previous : Option F

-- What ends an operation. All but the first three are causes of write-back; `release_failed` joins the
-- error of an operation with that of its release.
pub data LiveError (E : Type 0) : Type 0 where
  heartbeat_lost target_not_finite : LiveError E
  external : E → LiveError E
  owner_run_mismatch owner_disappeared intent_not_object : LiveError E
  owner_required operation_not_authorized : LiveError E
  release_failed : LiveError E → LiveError E → LiveError E

-- What happened, in order: a read with its answer, which is none if the read failed; a write that was
-- sent to the driver; and the changes that the database made. `R` is a row of another table.
pub data Effect (F R : Type 0) : Type 0 where
  step_begun : ℕ → NewLiveMutationStep F → Effect F R
  tag_read : Text → Option TagValue → Effect F R
  tag_written : Text → TagWrite F → Effect F R
  step_finished : ℕ → MutationStepStatus → Effect F R
  intent_set : ℕ → Text → Effect F R
  row_inserted : ℕ → R → Effect F R
  owner_released : ℕ → Effect F R

pub record Gateway (W F R E : Type 0) : Type 0 where
  pub heartbeat_failed : W → Bool × W
  pub read : W → Text → Result E (Option TagValue) × W
  pub write : W → Text → TagWrite F → Result E WriteOutcome × W
  pub begin_step : W → NewLiveMutationStep F → Result E ℕ × W
  pub finish_step : W → ℕ → MutationStepStatus → StepDetail E → Result E (Unit {0}) × W
  -- The stored intent of an owner, if there is the owner, and if it has one.
  pub get_intent : W → ℕ → Result E (Option (Option Text)) × W
  pub set_intent : W → ℕ → Text → Result E (Unit {0}) × W
  pub insert_row : W → ℕ → R → Result E (Unit {0}) × W
  pub release_owner : W → ℕ → Result E (Unit {0}) × W

-- `queued` is `previous_write_values`: the queue of each tag, empty where the map has no entry.
pub record Session (W F R : Type 0) : Type 0 where
  pub world : W
  pub trace : List (Effect F R)
  pub queued : Text → List F

abbrev pub head : {A : Type 0} → List A → Option A
head [] = none
head (x ∷ _) = some x

abbrev pub tail : {A : Type 0} → List A → List A
tail [] = []
tail (_ ∷ xs) = xs

abbrev pub step_status : {E : Type 0} → Result E WriteOutcome → MutationStepStatus
step_status (ok o) = if o.success then confirmed_step else failed_step
step_status (err _) = failed_step

abbrev pub step_detail : {E : Type 0} → Result E WriteOutcome → StepDetail E
step_detail (ok o) = if o.success then driver_accepted else driver_rejected o.error_message
step_detail (err e) = driver_failed e

-- A change of the database: it is in the trace exactly if the database made it.
abbrev pub changed :
    {W F R E A : Type 0}
    → (A → Effect F R)
    → Result E A × W
    → Session W F R
    → Result (LiveError E) A × Session W F R
changed effect (ok a, w) s = (ok a, record s { world = w; trace = push s.trace (effect a) })
changed effect (err e, w) s = (err (external e), record s { world = w })

-- The driver's answer, once the end of the step is recorded.
abbrev pub answered :
    {W F R E : Type 0}
    → Result E WriteOutcome
    → Result (LiveError E) (Unit {0}) × Session W F R
    → Result (LiveError E) WriteOutcome × Session W F R
answered result (ok _, s) = (map_err external result, s)
answered result (err e, s) = (err e, s)

module _ {W F R : Type 0} where
  unfoldable pub queue_previous_write_value : Text → F → Session W F R → Session W F R
  queue_previous_write_value tag v s = record s {
    queued = λ t. if text_eq t tag then push (s.queued t) v else s.queued t;
  }

  unfoldable pub take_previous_write_value :
      {E : Type 0} → Text → Io (Session W F R) (LiveError E) (Option F)
  take_previous_write_value tag s = (
    ok (head (s.queued tag)),
    record s { queued = λ t. if text_eq t tag then tail (s.queued t) else s.queued t },
  )

module _ {W F R E D : Type 0} (fl : Floats F D) (gateway : Gateway W F R E)
    (owner : LiveOwner) where
  unfoldable pub ensure_healthy : Io (Session W F R) (LiveError E) (Unit {0})
  ensure_healthy s =
      let (lost, w) = gateway.heartbeat_failed s.world in
      (fail_if lost heartbeat_lost, record s { world = w })

  -- `write_target_json`, which refuses a number that JSON has not.
  unfoldable pub write_target : TagWrite F → Result (LiveError E) (Unit {0})
  write_target (float v) = fail_if (not (fl.is_finite v)) target_not_finite
  write_target (raw _) = ok tt

  unfoldable pub begin_step : NewLiveMutationStep F → Io (Session W F R) (LiveError E) ℕ
  begin_step step s = changed (λ id. step_begun id step) (gateway.begin_step s.world step) s

  -- The inner driver's write and the end of its step, which is recorded whatever the driver said.
  unfoldable pub forward : ℕ → Text → TagWrite F → Io (Session W F R) (LiveError E) WriteOutcome
  forward id tag v s =
      let (result, w) = gateway.write s.world tag v in
      let status = step_status result in
      answered result (
        changed (λ _. step_finished id status)
          (gateway.finish_step w id status (step_detail result))
          (record s { trace = push s.trace (tag_written tag v) }))

  -- The intent is recorded, and then the write forwarded.
  unfoldable pub record_and_forward :
      Option ℕ → Text → TagWrite F → Option F → Io (Session W F R) (LiveError E) WriteOutcome
  unfolding begin_step forward
  record_and_forward run_id tag v previous = do
    id ← begin_step (record {
      owner_id = owner.id;
      run_id = run_id;
      target_tag = tag;
      target_value = v;
      previous = previous;
    })
    forward id tag v

  -- `AuditedDriver::write`.
  unfoldable pub write_audited :
      Option ℕ → Text → TagWrite F → Io (Session W F R) (LiveError E) WriteOutcome
  unfolding ensure_healthy write_target take_previous_write_value record_and_forward
  write_audited run_id tag v = do
    ensure_healthy
    lift (write_target v)
    previous ← take_previous_write_value tag
    record_and_forward run_id tag v previous

  unfoldable pub persist_restore_intent : Text → Io (Session W F R) (LiveError E) (Unit {0})
  unfolding ensure_healthy
  persist_restore_intent intent = ensure_healthy >> λ s.
      changed (λ _. intent_set owner.id intent) (gateway.set_intent s.world owner.id intent) s

  unfoldable pub release : Io (Session W F R) (LiveError E) (Unit {0})
  unfolding ensure_healthy
  release = ensure_healthy >> λ s.
      changed (λ _. owner_released owner.id) (gateway.release_owner s.world owner.id) s
