-- ===== src/Runtime/Revert.antt =====
-- history.rs of bhtune-runtime: what a revert of a run's write-back is going to write, and where. What
-- follows the plan (the owner, the connection, the attempt of Writeback.Attempt and the release) is
-- left out. A stored row has the fields of the inserted one; the texts of errors stand as their causes.
pub mod Plan
use bhtune.Common.{ℕ, Bool, true, false, not, List, [], ◌∷◌, Option, none, some, if◌then◌else◌}
use bhtune.Common.Text.{Text, text_eq}
use bhtune.Common.Result.{Result, ok, err, ◌>>=◌, ◌>>◌, fail_if}
use bhtune.Tags.{LoopTags}
use bhtune.Runtime.Request.{TuneDriver, opcda_driver, simulator_driver_kind, replay_driver_kind}
use bhtune.Runtime.Writeback.{Terms, revert_kind, NewTuneWrite, Job}
use bhtune.Runtime.Writeback.Attempt.{is_write}

-- A run's row, as far as it is read.
pub record TuneRunRow (F : Type 0) : Type 0 where
  pub id : ℕ
  pub driver : TuneDriver
  pub tags : LoopTags F
  pub opc_server : Option Text
  pub bridge_host : Option Text

pub record RevertRequest : Type 0 where
  pub confirmed : Bool
  pub bridge_host : Option Text
  pub server : Option Text

pub data RevertError : Type 0 where
  no_live_loop no_write_back no_previous not_confirmed no_constant_tags : RevertError
  server_missing bridge_host_missing server_contradicts bridge_host_contradicts : RevertError

pub record RevertPlan (F : Type 0) : Type 0 where
  pub bridge_host : Text
  pub server : Text
  pub job : Job F

abbrev pub or_fail : {A : Type 0} → Option A → RevertError → Result RevertError A
or_fail none e = err e
or_fail (some a) e = ok a

abbrev is_opcda_driver : TuneDriver → Bool
is_opcda_driver opcda_driver = true
is_opcda_driver simulator_driver_kind = false
is_opcda_driver replay_driver_kind = false

-- A flag agrees with the recorded value if it is not given.
abbrev agrees : Option Text → Text → Bool
agrees none stored = true
agrees (some flag) stored = text_eq flag stored

abbrev or_this : {A : Type 0} → Option A → Option A → Option A
or_this none other = other
or_this (some a) other = some a

-- `iter().rev().find`: the last row of a write.
unfoldable pub last_write : {F E : Type 0} → List (NewTuneWrite F E) → Option (NewTuneWrite F E)
last_write [] = none
last_write (w ∷ ws) = or_this (last_write ws) (if is_write w.kind then some w else none)

module _ {F : Type 0} where
  unfoldable pub resolve_revert_connection :
      TuneRunRow F → RevertRequest → Result RevertError (Text × Text)
  resolve_revert_connection run request = do
    server ← or_fail run.opc_server server_missing
    bridge_host ← or_fail run.bridge_host bridge_host_missing
    fail_if (not (agrees request.server server)) server_contradicts
    fail_if (not (agrees request.bridge_host bridge_host)) bridge_host_contradicts
    ok (bridge_host, server)

  -- The checks of `revert_run_with_progress`, in their order.
  unfoldable pub revert_plan :
      {E : Type 0}
      → TuneRunRow F
      → List (NewTuneWrite F E)
      → RevertRequest
      → Bool
      → Result RevertError (RevertPlan F)
  unfolding last_write resolve_revert_connection
  revert_plan run writes request allow_uncertain = do
    fail_if (not (is_opcda_driver run.driver)) no_live_loop
    last ← or_fail (last_write writes) no_write_back
    target ← or_fail last.previous no_previous
    fail_if (not request.confirmed) not_confirmed
    p_tag ← or_fail run.tags.proportional_constant no_constant_tags
    i_tag ← or_fail run.tags.integral_constant no_constant_tags
    d_tag ← or_fail run.tags.derivative_constant no_constant_tags
    connection ← resolve_revert_connection run request
    ok (record {
      bridge_host = connection.0;
      server = connection.1;
      job = record {
        run_id = run.id;
        p_tag = p_tag;
        i_tag = i_tag;
        d_tag = d_tag;
        response_level = last.response_level;
        target = target;
        kind = revert_kind;
        allow_uncertain = allow_uncertain;
      };
    })
