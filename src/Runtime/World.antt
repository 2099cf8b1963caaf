-- ===== src/Runtime/World.antt =====
-- What a live run awaits: the clock, the driver, the database and the event that a `select!` takes. A
-- world `W` answers each call and changes by it, in whatever way; the calls that reach the process
-- or the database are kept in a trace.
use Prim.Native.String.{String}
use bhtune.Common.{ℕ, List, push, Option, none, some}
use bhtune.Common.Text.{Text}
use bhtune.Common.Result.{Result, ok, err, map_err}
use bhtune.Common.Io.{Io}
use bhtune.Mrft.Engine.{Tick, MrftState}
use bhtune.Runtime.Quality.{TagValue, SampleQuality, ReadError}
use bhtune.Runtime.Actuation.{MvActuationKind, MvActuationTracker}
use bhtune.Runtime.Actuation.Verify.{AuditCall, VerifyError, invariant, audit}

-- How a driver call that is raced against Ctrl+C and its time limit ends, if it does not fail.
pub data TickOperation (A : Type 0) : Type 0 where
  op_completed : A → TickOperation A
  op_cancelled op_timed_out : TickOperation A

-- The branch that the polling loop's `select!` takes.
pub data PollEvent : Type 0 where
  verification_due poll_due ctrl_c run_timeout : PollEvent

-- A new audit row: its sequence, kind, times and values.
pub record NewTuneMvActuation (F : Type 0) : Type 0 where
  pub sequence : ℕ
  pub kind : MvActuationKind
  pub commanded_at : ℕ
  pub target_mv : F
  pub previous_commanded_mv : Option F
  pub tolerance : F
  pub confirmation_due_at : ℕ

pub data Call (F : Type 0) : Type 0 where
  mv_written : F → Call F
  sample_inserted : ℕ → Tick F → MrftState F → SampleQuality → Call F
  pending_inserted : NewTuneMvActuation F → Call F
  row_updated : AuditCall F → Call F

-- The causes that end a run with an error; `E` is an error of the driver or the database, and
-- `out_of_fuel` is the model's own.
pub data RunError (E : Type 0) : Type 0 where
  broken_invariant : String → RunError E
  external : E → RunError E
  reading : ReadError E → RunError E
  step_too_small time_out_of_range out_of_fuel : RunError E

unfoldable pub of_verify_error : {E : Type 0} → VerifyError E → RunError E
of_verify_error (invariant message) = broken_invariant message
of_verify_error (audit e) = external e

-- `require_invariant`.
abbrev pub require_invariant : {A E : Type 0} → Option A → String → Result (RunError E) A
require_invariant none message = err (broken_invariant message)
require_invariant (some a) message = ok a

-- A bounded call answers with its result, the outer limit `timeout_at` with `none`.
pub record World (W F E : Type 0) : Type 0 where
  pub now : W → ℕ × W
  pub select : W → Option ℕ → ℕ → PollEvent × W
  pub read_batch : W → List Text → Result E (TickOperation (Text → Option TagValue)) × W
  pub read_until : W → ℕ → Text → Option (Result E (TickOperation (Option TagValue))) × W
  pub write_value : W → Text → F → Result E (TickOperation (Unit {0})) × W
  pub insert_sample : W → ℕ → Tick F → MrftState F → SampleQuality → Result E (Unit {0}) × W
  pub insert_pending : W → NewTuneMvActuation F → Result E ℕ × W
  pub update_row : W → AuditCall F → Result E ℕ × W

-- The world, the trace and the tracker, which is there for OPC DA only.
pub record Link (W F : Type 0) : Type 0 where
  pub world : W
  pub trace : List (Call F)
  pub tracker : Option (MvActuationTracker F)

module _ {W F E : Type 0} (env : World W F E) where
  unfoldable pub instant_now : Io (Link W F) (RunError E) ℕ
  instant_now s = let (t, w) = env.now s.world in (ok t, record s { world = w })

  -- A call whose failure is only logged.
  unfoldable pub update_row_best_effort : AuditCall F → Io (Link W F) (RunError E) (Unit {0})
  update_row_best_effort c s =
      let (r, w) = env.update_row s.world c in
      (ok tt, record s { world = w; trace = push s.trace (row_updated c) })

  unfoldable pub insert_pending : NewTuneMvActuation F → Io (Link W F) (RunError E) ℕ
  insert_pending row s =
      let (r, w) = env.insert_pending s.world row in
      (map_err external r, record s { world = w; trace = push s.trace (pending_inserted row) })

  unfoldable pub read_until :
      ℕ → Text → Io (Link W F) (RunError E) (Option (Result E (TickOperation (Option TagValue))))
  read_until deadline tag s =
      let (r, w) = env.read_until s.world deadline tag in (ok r, record s { world = w })

  unfoldable pub read_batch :
      List Text → Io (Link W F) (RunError E) (TickOperation (Text → Option TagValue))
  read_batch tags s =
      let (r, w) = env.read_batch s.world tags in (map_err external r, record s { world = w })

  unfoldable pub write_value : Text → F → Io (Link W F) (RunError E) (TickOperation (Unit {0}))
  write_value tag v s =
      let (r, w) = env.write_value s.world tag v in
      (map_err external r, record s { world = w; trace = push s.trace (mv_written v) })
