-- ===== src/Runtime/Actuation/Confirmation.antt =====
-- How a pending command is judged.
use bhtune.Common.{
  ℕ, ◌<◌, ◌≤◌, ◌≡◌, refl, sym, ap, subst, ◌⊎◌, inl, inr, Bool, true, false, none, some,
  Option-cases, arith,
}
use bhtune.Common.Text.{Text}
use bhtune.Common.Result.{Result, ok, err}
use bhtune.Float.{Floats}
use bhtune.Runtime.Actuation.{
  PendingMvActuation, MvActuationTracker, MvVerificationTrigger, scheduled, deadline_due,
  actuation_abort_reason, actuation_matches,
}
use bhtune.Runtime.Actuation.Verify.{
  ActuationAuditPolicy, AuditCall, record_observation, record_final_observation, confirmed_status,
  PendingMvVerificationValue, VerifyError, audit, Judged, audited, confirm_pending_mv_actuation,
  keep_pending, give_up, judge, finalize_pending_mv_verification,
}

module _ {F D E : Type 0} (fl : Floats F D) (db : AuditCall F → Result E ℕ) (tag : Text)
    (tracker : MvActuationTracker F) (p : PendingMvActuation F)
    (v : PendingMvVerificationValue F) where
  abbrev pub Matches : Bool → Type 0
  Matches b = actuation_matches fl p.target v.readback p.tolerance ≡ b

  -- In time and within the tolerance: confirmed, or still pending if the audit stopped the run.
  abbrev pub IsConfirmed : Judged F E → Type 0
  IsConfirmed r =
      (v.checked_instant ≤ p.deadline)
      × Matches true
      × (((r.answer ≡ ok none)
            × (r.tracker.pending ≡ none)
            × (r.tracker.confirmed_mv ≡ some p.target))
          ⊎ ((e : VerifyError E) × (r.answer ≡ err e) × (r.tracker.pending ≡ some p)))

  -- Too late, or outside the tolerance when no time is left: given up.
  abbrev pub IsGivenUp : MvVerificationTrigger → Judged F E → Type 0
  IsGivenUp trigger r =
      ((p.deadline < v.checked_instant)
        ⊎ (Matches false × ((trigger ≡ deadline_due) ⊎ (p.deadline ≤ v.checked_instant))))
      × (r.answer ≡ ok (some (actuation_abort_reason tag p (some v.readback) v.checked_instant)))
      × (r.tracker.pending ≡ none)
      × (r.tracker.confirmed_mv ≡ tracker.confirmed_mv)

  -- Outside the tolerance with time left: pending with this readback, or dropped if the audit stopped
  -- the run.
  abbrev pub IsKept : MvVerificationTrigger → Judged F E → Type 0
  IsKept trigger r =
      (trigger ≡ scheduled)
      × (v.checked_instant < p.deadline)
      × Matches false
      × (r.tracker.confirmed_mv ≡ tracker.confirmed_mv)
      × (((r.answer ≡ ok none)
            × (r.tracker.pending ≡ some (record p { last_readback = some v.readback })))
          ⊎ ((e : VerifyError E) × (r.answer ≡ err e) × (r.tracker.pending ≡ none)))

  abbrev taken : MvActuationTracker F
  taken = record tracker { pending = none }

  confirm_cases :
      (policy : ActuationAuditPolicy)
      → v.checked_instant ≤ p.deadline
      → Matches true
      → IsConfirmed (confirm_pending_mv_actuation fl db taken p v policy)
  unfolding confirm_pending_mv_actuation
  confirm_cases policy early m =
      let call = λ (id : ℕ).
        record_final_observation id v.checked_at (some v.readback) (some v.sample_quality)
          confirmed_status none in
      elim (Option-cases (audited fl db p call policy).1) [
        | inl e ↦ (early, m, inl (ground (arith, e)))
        | inr (x, e) ↦ (early, m, inr (audit x, ground (arith, e), ground (arith, e)))
      ]

  keep_cases :
      (policy : ActuationAuditPolicy)
      → v.checked_instant < p.deadline
      → Matches false
      → IsKept scheduled (keep_pending fl db taken p v policy)
  unfolding keep_pending
  keep_cases policy early m =
      let call =
        λ (id : ℕ). record_observation id v.checked_at (some v.readback) (some v.sample_quality) in
      elim (Option-cases (audited fl db p call policy).1) [
        | inl e ↦ (refl, early, m, ground (arith, e), inl (ground (arith, e)))
        | inr (x, e) ↦
            (refl, early, m, ground (arith, e), inr (audit x, ground (arith, e), ground (arith, e)))
      ]

  judge_cases :
      (trigger : MvVerificationTrigger) (policy : ActuationAuditPolicy)
      → let r = judge fl db tag taken p v trigger policy in
        IsConfirmed r ⊎ IsGivenUp trigger r ⊎ IsKept trigger r
  unfolding judge give_up
  judge_cases trigger policy = ground (arith, confirm_cases policy, keep_cases policy)

  -- A readback of a pending command confirms it exactly when it is in time and within the tolerance; it
  -- makes the run give up exactly when it is late, or misses at the deadline; otherwise the command
  -- stays pending. Where the audit table stops the run, a confirmed command stays pending and a
  -- missed one is dropped.
  pub finalize_pending_mv_verification_cases :
      (trigger : MvVerificationTrigger) (policy : ActuationAuditPolicy)
      → tracker.pending ≡ some p
      → let r = finalize_pending_mv_verification fl db tag tracker v trigger policy in
        IsConfirmed r ⊎ IsGivenUp trigger r ⊎ IsKept trigger r
  unfolding finalize_pending_mv_verification
  finalize_pending_mv_verification_cases trigger policy h =
      subst (λ r. IsConfirmed r ⊎ IsGivenUp trigger r ⊎ IsKept trigger r)
        (sym (
          ap
            (λ o.
              finalize_pending_mv_verification fl db tag (record tracker { pending = o }) v trigger
                policy)
            h))
        (judge_cases trigger policy)
