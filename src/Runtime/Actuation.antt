-- ===== src/Runtime/Actuation.antt =====
-- tune/actuation.rs: the tracker of an MV command that was accepted by the driver and is to be
-- confirmed by a readback. Instants are nanoseconds; the audit table is a parameter that answers each
-- call with an attempt count or an error, and the calls are returned with the result.
pub mod Verify
pub mod Tolerance
pub mod Wakeup
pub mod Confirmation
use bhtune.Common.{
  ℕ, ◌+◌, ◌-◌, ◌*◌, ◌/◌, ◌^◌, Bool, true, false, ◌||◌, not, leb, Option, none, some, if◌then◌else◌,
}
use bhtune.Common.Text.{Text}
use bhtune.Common.Result.{Result, ok, err}
use bhtune.Float.{Floats}
use bhtune.Mrft.Engine.{seconds}
use bhtune.Runtime.Outcome.{AbortReason, mv_actuation_unconfirmed}

pub data MvActuationKind : Type 0 where
  relay restore : MvActuationKind

abbrev pub mv_actuation_confirmation_secs : ℕ
mv_actuation_confirmation_secs = 4

abbrev pub mv_actuation_deadline_read_max : ℕ
mv_actuation_deadline_read_max = seconds 1

abbrev pub mv_actuation_fallback_headroom : ℕ
mv_actuation_fallback_headroom = seconds 1

pub record PendingMvActuation (F : Type 0) : Type 0 where
  pub id : Option ℕ
  pub kind : MvActuationKind
  pub target : F
  pub tolerance : F
  pub switch_tick : ℕ
  pub switch_instant : ℕ
  pub accepted_instant : ℕ
  pub first_check_at : ℕ
  pub deadline : ℕ
  pub last_readback : Option F

pub record MvActuationTracker (F : Type 0) : Type 0 where
  pub next_sequence : ℕ
  pub previous_commanded_mv : F
  pub confirmed_mv : Option F
  pub pending : Option (PendingMvActuation F)
  pub mv_span : F

pub data MvVerificationTrigger : Type 0 where
  scheduled deadline_due : MvVerificationTrigger

pub data MvVerificationLimitKind : Type 0 where
  confirmation_limit deadline_limit restore_limit : MvVerificationLimitKind

pub data MvVerificationCallLimit : Type 0 where
  no_limit : MvVerificationCallLimit
  restore_until : ℕ → MvVerificationCallLimit

abbrev max_ℕ : ℕ → ℕ → ℕ
max_ℕ a b = if leb a b then b else a

abbrev min_ℕ : ℕ → ℕ → ℕ
min_ℕ a b = if leb a b then a else b

unfoldable pub accept_pending :
    {F : Type 0} → MvActuationTracker F → PendingMvActuation F → MvActuationTracker F
accept_pending tracker pending = record tracker {
  next_sequence = tracker.next_sequence + 1;
  previous_commanded_mv = pending.target;
  confirmed_mv = none;
  pending = some pending;
}

-- The command that `record_accepted_at_switch` hands to `accept_pending`, with the id of its audit row.
unfoldable pub accepted_command :
    {F : Type 0} → ℕ → MvActuationKind → F → ℕ → ℕ → ℕ → ℕ → F → PendingMvActuation F
accepted_command id kind target switch_tick switch_instant first_check_at accepted_instant
      tolerance =
    let deadline = accepted_instant + seconds mv_actuation_confirmation_secs in
    record {
      id = some id;
      kind = kind;
      target = target;
      tolerance = tolerance;
      switch_tick = switch_tick;
      switch_instant = switch_instant;
      accepted_instant = accepted_instant;
      first_check_at = min_ℕ first_check_at deadline;
      deadline = deadline;
      last_readback = none;
    }

abbrev is_some {ℓ} : {A : Type ℓ} → Option A → Bool
is_some none = false
is_some (some _) = true

-- The wake-up of a pending command. An instant of the process lies more than the headroom behind
-- the origin, so that the subtraction does not stop at 0.
unfoldable pub wakeup_of : {F : Type 0} → PendingMvActuation F → ℕ
wakeup_of p =
    if is_some p.last_readback
    then p.deadline
    else max_ℕ p.first_check_at (p.deadline - mv_actuation_fallback_headroom)

unfoldable pub next_verification_wakeup : {F : Type 0} → MvActuationTracker F → Option ℕ
unfolding wakeup_of
next_verification_wakeup tracker = elim tracker.pending [
  | none ↦ none
  | some p ↦ some (wakeup_of p)
]

unfoldable pub verification_trigger :
    {F : Type 0} → PendingMvActuation F → ℕ → Option MvVerificationTrigger
verification_trigger p now =
    if leb p.deadline now
    then some deadline_due
    else if is_some p.last_readback
    then none
    else if leb p.first_check_at now
    then some scheduled
    else none

-- The `match` on an outer limit that is earlier than the own one.
abbrev earlier_limit :
    MvVerificationCallLimit → ℕ × MvVerificationLimitKind → ℕ × MvVerificationLimitKind
earlier_limit no_limit own = own
earlier_limit (restore_until d) (limit, kind) =
    if leb limit d then (limit, kind) else (d, restore_limit)

unfoldable pub mv_verification_read_limit :
    {F : Type 0}
    → MvVerificationTrigger
    → PendingMvActuation F
    → MvVerificationCallLimit
    → ℕ
    → ℕ × MvVerificationLimitKind
mv_verification_read_limit deadline_due p limit now =
    earlier_limit limit (now + mv_actuation_deadline_read_max, deadline_limit)
mv_verification_read_limit scheduled p limit now =
    earlier_limit limit (p.deadline, confirmation_limit)

unfoldable pub actuation_abort_reason :
    {F : Type 0} → Text → PendingMvActuation F → Option F → ℕ → AbortReason F
actuation_abort_reason tag p readback now =
    mv_actuation_unconfirmed tag p.target readback p.tolerance
      (min_ℕ ((now - p.accepted_instant) / 1000000) (2 ^ 64 - 1)) mv_actuation_confirmation_secs

module _ {F D : Type 0} (fl : Floats F D) where
  open fl use {add, sub, mul, div, max, min, le, lt, literal, is_finite, abs, epsilon}

  unfoldable pub actuation_matches : F → F → F → Bool
  actuation_matches target readback tolerance = le (abs (sub target readback)) tolerance

  unfoldable pub f32_precision_floor : F → F → F
  f32_precision_floor target previous =
      mul (mul (literal 4 0) epsilon) (max (max (abs target) (abs previous)) (literal 1 0))

  unfoldable pub mv_actuation_uncapped_tolerance : F → F → F → F
  unfolding f32_precision_floor
  mv_actuation_uncapped_tolerance target previous mv_span =
      add (f32_precision_floor target previous) (mul (abs mv_span) (literal 1 3))

  -- An error carries the step and the least step.
  unfoldable pub mv_actuation_tolerance : MvActuationKind → F → F → F → Result (F × F) F
  unfolding mv_actuation_uncapped_tolerance f32_precision_floor
  mv_actuation_tolerance restore target previous mv_span =
      ok (mv_actuation_uncapped_tolerance target previous mv_span)
  mv_actuation_tolerance relay target previous mv_span =
      let step = abs (sub target previous) in
      let relay_cap = mul step (literal 25 2) in
      let floor = f32_precision_floor target previous in
      if not (is_finite step) || lt step (literal 1 2) || le relay_cap floor
      then err (step, max (literal 1 2) (div floor (literal 25 2)))
      else ok (min (mv_actuation_uncapped_tolerance target previous mv_span) relay_cap)
