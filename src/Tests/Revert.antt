-- ===== src/Tests/Revert.antt =====
-- The theorem on the plan of a revert, behind a write and a revert of it.
use bhtune.Common.{ℕ, ◌≡◌, refl, true, false, List, [], ◌∷◌, none, some}
use bhtune.Common.Int.{ℤ, pos}
use bhtune.Common.Text.{text_eq}
use bhtune.Common.Result.{ok}
use bhtune.Process.{reverse}
use bhtune.Constants.{moderate}
use bhtune.Tags.{value}
use bhtune.Runtime.Request.{opcda_driver}
use bhtune.Runtime.Writeback.{Terms, WriteKind, write_kind, revert_kind, NewTuneWrite, no_terms}
use bhtune.Runtime.Revert.{
  TuneRunRow, RevertRequest, RevertPlan, last_write, resolve_revert_connection, revert_plan,
}
use bhtune.Runtime.Revert.Plan.{Reverts, revert_plan-Reverts}

abbrev found : ℕ → Terms ℤ
found n = record { proportional = pos n; integral = pos 10000; derivative = pos 0 }

abbrev row : WriteKind → ℕ → NewTuneWrite ℤ ℕ
row kind n = record {
  response_level = moderate;
  kind = kind;
  allow_uncertain_quality = false;
  previous = some (found n);
  written = no_terms;
  readback = no_terms;
  success = true;
  error_message = none;
  rollback_state = none;
  rollback_error = none;
}

abbrev rows : List (NewTuneWrite ℤ ℕ)
rows = row write_kind 1000 ∷ row write_kind 2000 ∷ row revert_kind 3000 ∷ []

abbrev tuned : TuneRunRow ℤ
tuned = record {
  id = 7;
  driver = opcda_driver;
  tags = record {
    process_variable = b'V' ∷ [];
    manipulated_variable = b'M' ∷ [];
    setpoint_variable = none;
    controller_mode = none;
    mode_attribute = none;
    upper_pv_range = value (pos 100000);
    lower_pv_range = value (pos 0);
    upper_mv_range = value (pos 100000);
    lower_mv_range = value (pos 0);
    controller_direction = value reverse;
    proportional_constant = some (b'P' ∷ []);
    integral_constant = some (b'I' ∷ []);
    derivative_constant = some (b'D' ∷ []);
  };
  opc_server = some (b'S' ∷ []);
  bridge_host = some (b'H' ∷ []);
}

abbrev request : RevertRequest
request = record { confirmed = true; bridge_host = none; server = some (b'S' ∷ []) }

abbrev plan : RevertPlan ℤ
plan = record {
  bridge_host = b'H' ∷ [];
  server = b'S' ∷ [];
  job = record {
    run_id = 7;
    p_tag = b'P' ∷ [];
    i_tag = b'I' ∷ [];
    d_tag = b'D' ∷ [];
    response_level = moderate;
    target = found 2000;
    kind = revert_kind;
    allow_uncertain = false;
  };
}

planned : revert_plan tuned rows request false ≡ ok plan
unfolding revert_plan last_write resolve_revert_connection text_eq
planned = refl

revert_plan-Reverts_example : Reverts tuned rows plan
revert_plan-Reverts_example = revert_plan-Reverts tuned rows request false planned
