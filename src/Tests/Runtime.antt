-- ===== src/Tests/Runtime.antt =====
-- The theorems on readings, MV commands and outcomes at sample data.
use bhtune.Common.{ℕ, ◌+◌, ◌*◌, ◌≤◌, ◌≡◌, refl, ◌↔◌, ◌⊎◌, true, false, [], ◌∷◌, Option, none, some}
use bhtune.Common.Int.{ℤ, pos}
use bhtune.Common.Text.{Text, trim}
use bhtune.Common.Result.{Result, ok, err}
use bhtune.Float.{fixed}
use bhtune.Mrft.Engine.{seconds}
use bhtune.Tags.{tag}
use bhtune.Runtime.Outcome.{uncertain}
use bhtune.Runtime.Quality.{TagValue, good_sample, resolve_f32_from_batch}
use bhtune.Runtime.Quality.Laws.{IsTrusted, resolve_f32_from_batch_iff}
use bhtune.Runtime.Actuation.{
  relay, PendingMvActuation, MvActuationTracker, deadline_due, accept_pending, accepted_command,
  next_verification_wakeup, actuation_matches, mv_actuation_tolerance,
  mv_actuation_uncapped_tolerance, f32_precision_floor,
}
use bhtune.Runtime.Actuation.Wakeup.{accept_pending-wakes_in_time}
use bhtune.Runtime.Actuation.Tolerance.{previous-not_matching}
use bhtune.Runtime.Actuation.Verify.{
  AuditCall, PendingMvVerificationValue, required, finalize_pending_mv_verification,
}
use bhtune.Runtime.Actuation.Confirmation.{
  IsConfirmed, IsGivenUp, IsKept, finalize_pending_mv_verification_cases,
}
use bhtune.Tests.Samples.{ascii, pv_tag}

abbrev batch : Text → Option TagValue
batch t = some (record { value = b'7' ∷ []; quality = uncertain })

abbrev digit : Text → Option ℤ
digit [] = none
digit (c ∷ _) = some (pos (c * 1000))

abbrev no_read : Text → Result ℕ (Option TagValue)
no_read t = err 0

resolve_f32_from_batch_iff_example :
    (resolve_f32_from_batch fixed ascii digit no_read batch (tag pv_tag) true ≡ ok (pos 55000)) ↔ (
      (v : TagValue) × (batch pv_tag ≡ some v)
      × IsTrusted v.quality true
      × (digit (trim ascii.is_whitespace v.value) ≡ some (pos 55000))
      × (fixed.is_finite (pos 55000) ≡ true))
resolve_f32_from_batch_iff_example =
    resolve_f32_from_batch_iff fixed ascii digit no_read batch pv_tag true (pos 55000)

-- A relay step from 45 to 55, accepted at 10 s.
abbrev command : PendingMvActuation ℤ
command = record {
  id = some 1;
  kind = relay;
  target = pos 55000;
  tolerance = pos 100;
  switch_tick = seconds 10;
  switch_instant = seconds 10;
  accepted_instant = seconds 10;
  first_check_at = seconds 11;
  deadline = seconds 14;
  last_readback = none;
}

abbrev tracker : MvActuationTracker ℤ
tracker = record {
  next_sequence = 1;
  previous_commanded_mv = pos 55000;
  confirmed_mv = none;
  pending = some command;
  mv_span = pos 100000;
}

accept_pending-wakes_in_time_example :
    let p =
      accepted_command 2 relay
        (pos 35000)
        (seconds 20)
        (seconds 20)
        (seconds 21)
        (seconds 20)
        (pos 100) in
    let next = accept_pending tracker p in
    (next.pending ≡ some p)
    × (next.confirmed_mv ≡ none)
    × ((wakeup : ℕ) × (next_verification_wakeup next ≡ some wakeup)
        × (wakeup ≤ seconds 20 + seconds 4)
        × (seconds 20 + seconds 3 ≤ wakeup))
accept_pending-wakes_in_time_example =
    accept_pending-wakes_in_time tracker 2 relay (pos 35000) (seconds 20) (seconds 20) (seconds 21)
      (seconds 20) (pos 100)

relay_tolerance :
    mv_actuation_tolerance fixed relay (pos 55000) (pos 45000) (pos 100000) ≡ ok (pos 100)
unfolding mv_actuation_tolerance mv_actuation_uncapped_tolerance f32_precision_floor fixed
relay_tolerance = refl

previous-not_matching_example : actuation_matches fixed (pos 55000) (pos 45000) (pos 100) ≡ false
previous-not_matching_example =
    previous-not_matching (pos 55000) (pos 45000) (pos 100000) (pos 100) relay_tolerance

abbrev audit_table : AuditCall ℤ → Result ℕ ℕ
audit_table call = ok 1

-- A readback of the old level, at the deadline.
abbrev missed : PendingMvVerificationValue ℤ
missed = record {
  readback = pos 45000;
  sample_quality = good_sample;
  checked_at = seconds 14;
  checked_instant = seconds 14;
}

finalize_pending_mv_verification_cases_example :
    let r =
      finalize_pending_mv_verification fixed audit_table pv_tag tracker missed deadline_due
        required in
    IsConfirmed fixed audit_table pv_tag tracker command missed r
    ⊎ IsGivenUp fixed audit_table pv_tag tracker command missed deadline_due r
    ⊎ IsKept fixed audit_table pv_tag tracker command missed deadline_due r
finalize_pending_mv_verification_cases_example =
    finalize_pending_mv_verification_cases fixed audit_table pv_tag tracker command missed
      deadline_due required refl
