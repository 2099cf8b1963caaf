-- ===== src/Runtime/Actuation/Wakeup.antt =====
-- When a pending command is checked.
use bhtune.Common.{ℕ, ◌+◌, ◌≤◌, ◌≡◌, refl, ◌⊎◌, inl, inr, none, some, Option-cases, arith}
use bhtune.Mrft.Engine.{seconds}
use bhtune.Runtime.Actuation.{
  MvActuationKind, PendingMvActuation, MvActuationTracker, scheduled, deadline_due, accept_pending,
  accepted_command, wakeup_of, next_verification_wakeup, verification_trigger,
}

-- From the wake-up of a pending command on, a verification is due.
pub verification_trigger-wakeup_of :
    {F : Type 0} (p : PendingMvActuation F) (now : ℕ)
    → wakeup_of p ≤ now
    → (verification_trigger p now ≡ some scheduled)
      ⊎ (verification_trigger p now ≡ some deadline_due)
unfolding wakeup_of verification_trigger
verification_trigger-wakeup_of p now late = elim (Option-cases p.last_readback) [
  | inl e ↦ ground (arith, e)
  | inr (x, e) ↦ ground (arith, e)
]

-- A command that was just accepted is the pending one and is not confirmed; it wakes up at its
-- deadline at the latest, which lies four seconds behind its acceptance, and no earlier than three
-- seconds behind its acceptance.
pub accept_pending-wakes_in_time :
    {F : Type 0} (tracker : MvActuationTracker F) (id : ℕ) (kind : MvActuationKind) (target : F)
    (switch_tick switch_instant first_check_at accepted_instant : ℕ) (tolerance : F)
    → let p =
        accepted_command id kind target switch_tick switch_instant first_check_at accepted_instant
          tolerance in
      let next = accept_pending tracker p in
      (next.pending ≡ some p)
      × (next.confirmed_mv ≡ none)
      × ((wakeup : ℕ) × (next_verification_wakeup next ≡ some wakeup)
          × (wakeup ≤ accepted_instant + seconds 4)
          × (accepted_instant + seconds 3 ≤ wakeup))
unfolding accept_pending accepted_command next_verification_wakeup wakeup_of
accept_pending-wakes_in_time tracker id kind target tick instant first accepted tolerance =
    (refl, refl, (_, refl, ground arith, ground arith))
