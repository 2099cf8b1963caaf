-- ===== src/Runtime/Writeback.antt =====
-- tune/writeback.rs: writing three PID constants with a read before, a readback behind each and a
-- rollback, and one audit row for each attempt. The texts of errors stand as their causes, `E` is an
-- error of the driver or the database, and the times of rows are left out.
pub mod Attempt
pub mod Results
pub mod Log
pub mod Steps
pub mod Shape
pub mod Attempts
pub mod Promises
pub mod Orderly
pub mod Selected
pub mod Select
use bhtune.Common.{
  ℕ, Bool, true, false, not, List, [], ◌∷◌, ◌++◌, push, Option, none, some, if◌then◌else◌,
}
use bhtune.Common.Text.{Text, Chars}
use bhtune.Common.Result.{Result, ok, err, map_err}
use bhtune.Common.Io.{Io, ◌>>=◌, ◌>>◌, pure, modify, lift, attempt}
use bhtune.Float.{Floats}
use bhtune.Constants.{ResponseLevel}
use bhtune.Runtime.Quality.{TagValue, ReadError, read_f32}
use bhtune.Driver.{WriteOutcome, TagWrite, float}
use bhtune.Runtime.Ownership.{
  LiveOwner, LiveError, external, owner_disappeared, intent_not_object, row_inserted, tag_read,
  changed, Gateway, Session, queue_previous_write_value, write_audited, persist_restore_intent,
}

-- One value for each of the three constants; `WriteReadback` is this at a number.
pub record Terms (A : Type 0) : Type 0 where
  pub proportional : A
  pub integral : A
  pub derivative : A

pub data PidTerm : Type 0 where
  proportional_term integral_term derivative_term : PidTerm

pub data WriteKind : Type 0 where
  write_kind revert_kind : WriteKind

pub data RollbackState : Type 0 where
  rollback_succeeded rollback_failed : RollbackState

pub data WriteError (E : Type 0) : Type 0 where
  not_written : LiveError E → WriteError E
  rejected : Option Text → WriteError E

pub data PidError (F E : Type 0) : Type 0 where
  pre_read_failed readback_failed : PidTerm → Text → ReadError E → PidError F E
  write_failed : PidTerm → Text → WriteError E → PidError F E
  outside_tolerance : PidTerm → Text → F → F → PidError F E

pub data RollbackFailure (E : Type 0) : Type 0 where
  rollback_not_finite : PidTerm → Text → RollbackFailure E
  rollback_write_failed : PidTerm → Text → WriteError E → RollbackFailure E

-- The causes of `PidWriteOutcome::Failed`.
pub data PidFailure (F E : Type 0) : Type 0 where
  pre_read stopped_at rolled_back : PidError F E → PidFailure F E
  rollback_also_failed : PidError F E → List (RollbackFailure E) → PidFailure F E

pub data PidWriteOutcome (F E : Type 0) : Type 0 where
  all_written : PidWriteOutcome F E
  pid_failed : PidFailure F E → PidWriteOutcome F E

pub record NewTuneWrite (F E : Type 0) : Type 0 where
  pub response_level : ResponseLevel
  pub kind : WriteKind
  pub allow_uncertain_quality : Bool
  pub previous : Option (Terms F)
  pub written : Terms (Option F)
  pub readback : Terms (Option F)
  pub success : Bool
  pub error_message : Option (PidError F E)
  pub rollback_state : Option RollbackState
  pub rollback_error : Option (List (RollbackFailure E))

-- The "pid_restore" entry of a restore intent.
pub record PidRestore (F : Type 0) : Type 0 where
  pub run_id : ℕ
  pub write_kind : WriteKind
  pub response_level : ResponseLevel
  pub previous : Terms F
  pub target : Terms F

-- A constant to write: its tag, its target and the value that it had.
pub record Step (F : Type 0) : Type 0 where
  pub term : PidTerm
  pub tag : Text
  pub value : F
  pub previous : F

pub record Progress (F : Type 0) : Type 0 where
  pub written : Terms (Option F)
  pub readback : Terms (Option F)
  pub rollback_targets : List (Step F)

-- What stays the same through one attempt.
pub record Job (F : Type 0) : Type 0 where
  pub run_id : ℕ
  pub p_tag : Text
  pub i_tag : Text
  pub d_tag : Text
  pub response_level : ResponseLevel
  pub target : Terms F
  pub kind : WriteKind
  pub allow_uncertain : Bool

abbrev pub set_term : {A : Type 0} → PidTerm → A → Terms (Option A) → Terms (Option A)
set_term proportional_term a t = record t { proportional = some a }
set_term integral_term a t = record t { integral = some a }
set_term derivative_term a t = record t { derivative = some a }

abbrev pub no_terms : {A : Type 0} → Terms (Option A)
no_terms = record { proportional = none; integral = none; derivative = none }

abbrev pub steps_of : {F : Type 0} → Job F → Terms F → List (Step F)
steps_of job previous =
    record {
      term = proportional_term;
      tag = job.p_tag;
      value = job.target.proportional;
      previous = previous.proportional;
    }
    ∷ record {
      term = integral_term;
      tag = job.i_tag;
      value = job.target.integral;
      previous = previous.integral;
    }
    ∷ record {
      term = derivative_term;
      tag = job.d_tag;
      value = job.target.derivative;
      previous = previous.derivative;
    }
    ∷ []

-- The JSON library: reading an object, which any other text is not, and the text of an object with its
-- entry "pid_restore" set.
pub record Json (J F : Type 0) : Type 0 where
  pub empty_object : J
  pub parse_object : Text → Option J
  pub with_pid_restore : J → PidRestore F → Text

abbrev pub Writing : Type 0 → Type 0 → Type 0 → Type 0 → Type 0 → Type 0
Writing W F E G A = Io (Session W F (NewTuneWrite F E)) G A

abbrev pub no_progress : {F : Type 0} → Progress F
no_progress = record { written = no_terms; readback = no_terms; rollback_targets = [] }

-- What the loop notes before a write, and behind one that was confirmed.
abbrev pub note_written : {F : Type 0} → Step F → Progress F → Progress F
note_written x p = record p { written = set_term x.term x.value p.written }

abbrev pub note_confirmed : {F : Type 0} → Step F → F → Progress F → Progress F
note_confirmed x readback p = record p {
  written = set_term x.term x.value p.written;
  readback = set_term x.term readback p.readback;
  rollback_targets = push p.rollback_targets x;
}

-- A failure breaks the loop, a confirmed write goes on with it.
abbrev pub continue_with :
    {W F E : Type 0}
    → Step F
    → Progress F
    → (F → Writing W F E (LiveError E) (Progress F × Option (PidError F E)))
    → Result (PidError F E) F
    → Writing W F E (LiveError E) (Progress F × Option (PidError F E))
continue_with x p next (err e) = pure (note_written x p, some e)
continue_with x p next (ok readback) = next readback

abbrev pub failure_of : {E A : Type 0} → Result E A → List E
failure_of (ok _) = []
failure_of (err e) = e ∷ []

unfoldable pub write_outcome :
    {E : Type 0} → Result (LiveError E) WriteOutcome → Result (WriteError E) (Unit {0})
write_outcome (ok o) = if o.success then ok tt else err (rejected o.error_message)
write_outcome (err e) = err (not_written e)

unfoldable pub pid_value_within_tolerance : {F D : Type 0} → Floats F D → F → F → Bool
pid_value_within_tolerance fl requested actual =
    fl.le (fl.abs (fl.sub actual requested))
      (fl.max (fl.literal 1 3) (fl.mul (fl.literal 1 2) (fl.abs requested)))

abbrev pub answer_of : {E : Type 0} → Result E (Option TagValue) → Option TagValue
answer_of (ok value) = value
answer_of (err _) = none

module _ {W F D E J : Type 0} (fl : Floats F D) (ch : Chars) (parse : Text → Option F)
    (json : Json J F) (gateway : Gateway W F (NewTuneWrite F E) E) (owner : LiveOwner)
    (job : Job F) where
  unfoldable pub read_value : {G : Type 0} → (ReadError E → G) → Text → Writing W F E G F
  unfolding read_f32
  read_value failed tag s =
      let (r, w) = gateway.read s.world tag in
      (
        map_err failed (read_f32 fl ch parse (λ _. r) tag job.allow_uncertain),
        record s { world = w; trace = push s.trace (tag_read tag (answer_of r)) },
      )

  -- `write_value` of quality.rs, over the driver that records its writes.
  unfoldable pub write_value :
      {G : Type 0} → (WriteError E → G) → Text → F → Writing W F E G (Unit {0})
  unfolding write_audited write_outcome
  write_value failed tag v s =
      let (r, s') = write_audited fl gateway owner (some job.run_id) tag (float v) s in
      (map_err failed (write_outcome r), s')

  unfoldable pub insert_row : NewTuneWrite F E → Writing W F E (LiveError E) (Unit {0})
  insert_row row s =
      changed (λ _. row_inserted job.run_id row) (gateway.insert_row s.world job.run_id row) s

  unfoldable pub read_previous_pid_values : Writing W F E (PidError F E) (Terms F)
  unfolding read_value
  read_previous_pid_values = do
    proportional ← read_value (pre_read_failed proportional_term job.p_tag) job.p_tag
    integral ← read_value (pre_read_failed integral_term job.i_tag) job.i_tag
    derivative ← read_value (pre_read_failed derivative_term job.d_tag) job.d_tag
    pure (record { proportional = proportional; integral = integral; derivative = derivative })

  -- The object that a stored intent holds.
  unfoldable pub intent_object : Option (Option Text) → Result (LiveError E) J
  intent_object none = err owner_disappeared
  intent_object (some none) = ok json.empty_object
  intent_object (some (some text)) = elim (json.parse_object text) [
    | none ↦ err intent_not_object
    | some object ↦ ok object
  ]

  unfoldable pub load_intent : Writing W F E (LiveError E) J
  unfolding intent_object
  load_intent s =
      let (r, w) = gateway.get_intent s.world owner.id in
      (
        elim r [ ok stored ↦ intent_object stored | err e ↦ err (external e) ],
        record s { world = w },
      )

  unfoldable pub persist_pid_restore_intent : Terms F → Writing W F E (LiveError E) (Unit {0})
  unfolding load_intent persist_restore_intent
  persist_pid_restore_intent previous = do
    object ← load_intent
    persist_restore_intent fl gateway owner (
        json.with_pid_restore object (record {
          run_id = job.run_id;
          write_kind = job.kind;
          response_level = job.response_level;
          previous = previous;
          target = job.target;
        }))

  unfoldable pub write_and_verify_pid_value : PidTerm → Text → F → Writing W F E (PidError F E) F
  unfolding write_value read_value pid_value_within_tolerance
  write_and_verify_pid_value term tag v = do
    write_value (write_failed term tag) tag v
    readback ← read_value (readback_failed term tag) tag
    lift (
        if pid_value_within_tolerance fl v readback
        then ok readback
        else err (outside_tolerance term tag v readback))

  -- The loop over the three constants: how far it came, and the failure that stopped it.
  unfoldable pub write_steps :
      List (Step F) → Progress F → Writing W F E (LiveError E) (Progress F × Option (PidError F E))
  unfolding queue_previous_write_value write_and_verify_pid_value
  write_steps [] p = pure (p, none)
  write_steps (x ∷ xs) p = do
    modify (queue_previous_write_value x.tag x.previous)
    r ← attempt (write_and_verify_pid_value x.term x.tag x.value)
    continue_with x p (λ readback. write_steps xs (note_confirmed x readback p)) r

  -- One turn of the rollback: a failure is noted, and the next constant is tried all the same.
  unfoldable pub rollback_step : Step F → Writing W F E (LiveError E) (List (RollbackFailure E))
  unfolding queue_previous_write_value write_value
  rollback_step x =
      if not (fl.is_finite x.value) then pure (rollback_not_finite x.term x.tag ∷ []) else do
        modify (queue_previous_write_value x.tag x.value)
        r ← attempt (write_value (rollback_write_failed x.term x.tag) x.tag x.previous)
        pure (failure_of r)

  unfoldable pub rollback_pid_writes :
      List (Step F) → Writing W F E (LiveError E) (List (RollbackFailure E))
  unfolding rollback_step
  rollback_pid_writes [] = pure []
  rollback_pid_writes (x ∷ xs) = do
    failed ← rollback_step x
    rest ← rollback_pid_writes xs
    pure (failed ++ rest)
