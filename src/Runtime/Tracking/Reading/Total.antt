-- ===== src/Runtime/Tracking/Reading/Total.antt =====
-- The loop of the bounded read ends within two rounds.
use bhtune.Common.{ℕ, suc, ◌≡◌, ◌≢◌, refl, inl, inr, Option, none, some, Option-cases, arith}
use bhtune.Common.Text.{Text, Chars}
use bhtune.Common.Result.{Result, err}
use bhtune.Common.Io.{Io}
use bhtune.Float.{Floats}
use bhtune.Runtime.Actuation.{
  PendingMvActuation, MvVerificationTrigger, scheduled, deadline_due, MvVerificationLimitKind,
  confirmation_limit, deadline_limit, restore_limit, MvVerificationCallLimit, no_limit,
  restore_until, mv_verification_read_limit,
}
use bhtune.Runtime.World.{World, Link, RunError, out_of_fuel, instant_now, read_until}
use bhtune.Runtime.Tracking.{pending_of, take_pending}
use bhtune.Runtime.Tracking.Reading.{
  PendingMvVerificationRead, read_limit, timed_out_at, after_read, read_pending_mv_verification,
}

-- A read at the deadline has no confirmation limit.
deadline_kind :
    {F : Type 0} (p : PendingMvActuation F) (limit : MvVerificationCallLimit) (now : ℕ)
    → (mv_verification_read_limit deadline_due p limit now).1 ≢ confirmation_limit
unfolding mv_verification_read_limit
deadline_kind p no_limit now h = cc
deadline_kind p (restore_until d) now h = ground arith

module _ {W F D E : Type 0} (env : World W F E) (fl : Floats F D) (ch : Chars)
    (parse : Text → Option F) (tag : Text) where
  record HasFuel (r : Result (RunError E) (PendingMvVerificationRead F E) × Link W F) : Type 0 where
    fuel : r.0 ≢ err out_of_fuel

  after_read-HasFuel :
      (retry : Io (Link W F) (RunError E) (PendingMvVerificationRead F E))
      (kind : MvVerificationLimitKind) (answer : _) (s : Link W F)
      → (kind ≡ confirmation_limit → (t : Link W F) → HasFuel (retry t))
      → HasFuel (after_read env fl ch parse tag retry kind answer s)
  unfolding after_read timed_out_at instant_now take_pending
  after_read-HasFuel retry kind (some op) s h = record { fuel = λ e. ground arith }
  after_read-HasFuel retry confirmation_limit none s h = h refl s
  after_read-HasFuel retry deadline_limit none s h = record { fuel = λ e. ground arith }
  after_read-HasFuel retry restore_limit none s h = record { fuel = λ e. ground arith }

  deadline_total :
      (n : ℕ) (limit : MvVerificationCallLimit) (s : Link W F)
      → HasFuel (read_pending_mv_verification env fl ch parse (suc n) tag deadline_due limit s)
  unfolding read_pending_mv_verification read_limit instant_now read_until
  deadline_total n limit s = elim (Option-cases (pending_of s)) [
    | inl e ↦ record { fuel = λ h. ground (arith, e) }
    | inr (p, e) ↦ rw e (
        after_read-HasFuel (read_pending_mv_verification env fl ch parse n tag deadline_due limit) _
          _ _ (λ k _. absurd (deadline_kind p limit _ k)))
  ]

  scheduled_total :
      (n : ℕ) (limit : MvVerificationCallLimit) (s : Link W F)
      → HasFuel (read_pending_mv_verification env fl ch parse (suc (suc n)) tag scheduled limit s)
  unfolding read_pending_mv_verification read_limit instant_now read_until
  scheduled_total n limit s = elim (Option-cases (pending_of s)) [
    | inl e ↦ record { fuel = λ h. ground (arith, e) }
    | inr (p, e) ↦ rw e (
        after_read-HasFuel
          (read_pending_mv_verification env fl ch parse (suc n) tag deadline_due limit) _ _ _
          (λ _. deadline_total n limit))
  ]

  -- Two rounds of fuel are enough: the loop of the bounded read, whatever the clock and the driver
  -- answer and with whatever fuel beyond, never runs out, since a round at the deadline is the last one.
  pub read_pending_mv_verification_total :
      (n : ℕ) (trigger : MvVerificationTrigger) (limit : MvVerificationCallLimit) (s : Link W F)
      → (read_pending_mv_verification env fl ch parse (suc (suc n)) tag trigger limit s).0
        ≢ err out_of_fuel
  read_pending_mv_verification_total n scheduled limit s = (scheduled_total n limit s).fuel
  read_pending_mv_verification_total n deadline_due limit s = (deadline_total (suc n) limit s).fuel
