-- ===== src/Runtime/Poll/Trace/Judged.antt =====
-- What a write, its acceptance and the judgement of a readback do to the order of commands.
use bhtune.Common.{
  ℕ, ◌≡◌, refl, ap, ◌∙◌, Bool, true, List, ◌++◌, push, map, Option, none, some, ◌||◌, ltb, leb,
  if_cases, inl, inr,
}
use mathlib.Core.List.{append-nil}
use bhtune.Common.Text.{Text}
use bhtune.Common.Result.{Result, ok, err, Result-cases}
use bhtune.Float.{Floats}
use bhtune.Runtime.Outcome.{AbortReason}
use bhtune.Runtime.Actuation.{
  PendingMvActuation, MvActuationTracker, MvVerificationTrigger, actuation_matches,
}
use bhtune.Runtime.Actuation.Verify.{
  is_deadline, required, AuditCall, record_observation, record_final_observation, confirmed_status,
  PendingMvVerificationValue, Judged, after_audit, audited, failed_calls, give_up,
  confirm_pending_mv_actuation, keep_pending, judge, finalize_pending_mv_verification,
}
use bhtune.Runtime.World.{Call, row_updated}
use bhtune.Runtime.Poll.Trace.{
  Phase, all_confirmed, unconfirmed, overwritten, sample_indices, after_row, after_event, phase,
  phase-push, Commands, settled, awaiting, Linked, Held, Linked-Held, Held-row, Held-other,
  samples_push,
}

after_row-observation :
    {F : Type 0} (p : Phase) (id at : ℕ) (readback quality : _)
    → after_row {F = F} p (record_observation id at readback quality) ≡ p
unfolding after_row
after_row-observation all_confirmed id at readback quality = refl
after_row-observation unconfirmed id at readback quality = refl
after_row-observation overwritten id at readback quality = refl

-- What a judgement or a check leaves: the invariant if the run goes on.
abbrev pub Concluded :
    {F E : Type 0}
    → Bool
    → ℕ
    → Result E (Option (AbortReason F))
    → Option (MvActuationTracker F)
    → List (Call F)
    → Type 0
Concluded tracked n (ok none) tracker trace = Linked tracked n tracker trace
Concluded tracked n (ok (some _)) tracker trace = Held tracked n tracker trace
Concluded tracked n (err _) tracker trace = Held tracked n tracker trace

pub record Concludes {F E : Type 0} (tracked : Bool) (n : ℕ) (trace : List (Call F))
    (j : Judged F E) : Type 0 where
  pub concluded : Concluded tracked n j.answer (some j.tracker) (trace ++ map row_updated j.calls)

module _ {F D E : Type 0} (fl : Floats F D) (db : AuditCall F → Result E ℕ) (n : ℕ)
    (trace : List (Call F)) (t : MvActuationTracker F) (p : PendingMvActuation F) (id : ℕ)
    (v : PendingMvVerificationValue F) where
  give_up-Concludes :
      (tag : Text) (detail : _)
      → p.id ≡ some id
      → Held true n (some t) trace
      → Concludes true n trace (give_up fl db tag t p v detail)
  unfolding give_up failed_calls
  give_up-Concludes tag detail i h = record { concluded = rw i (Held-row trace _ h) }

  audited-Concludes :
      (call : ℕ → AuditCall F) (accepted stopped : MvActuationTracker F)
      → p.id ≡ some id
      → Held true n (some t) trace
      → Linked true n (some accepted) (push trace (row_updated (call id)))
      → Concludes true n trace (after_audit fl db (audited fl db p call required) accepted stopped)
  unfolding audited after_audit
  audited-Concludes call accepted stopped i h l = rw i (elim (Result-cases (db (call id))) [
    | inl (a, e) ↦ rw e (record { concluded = l })
    | inr (a, e) ↦ rw e (record { concluded = Held-other t _ _ (Held-row trace (call id) h) })
  ])

  confirm-Concludes :
      p.id ≡ some id
      → t.pending ≡ none
      → phase trace ≡ unconfirmed
      → Held true n (some t) trace
      → Concludes true n trace (confirm_pending_mv_actuation fl db t p v required)
  unfolding confirm_pending_mv_actuation sample_indices after_event after_row
  confirm-Concludes i taken ph h =
      let c =
        record_final_observation id v.checked_at (some v.readback) (some v.sample_quality)
          confirmed_status none in
      audited-Concludes _ _ _ i h (record {
        samples = samples_push n trace (row_updated c) refl h.samples;
        commands = settled taken (phase-push trace (row_updated c) ∙ ap (λ x. after_row x c) ph);
      })

  keep_pending-Concludes :
      p.id ≡ some id
      → phase trace ≡ unconfirmed
      → Held true n (some t) trace
      → Concludes true n trace (keep_pending fl db t p v required)
  unfolding keep_pending sample_indices after_event
  keep_pending-Concludes i ph h =
      let c = record_observation id v.checked_at (some v.readback) (some v.sample_quality) in
      audited-Concludes _ _ _ i h (record {
        samples = samples_push n trace (row_updated c) refl h.samples;
        commands =
            awaiting (record p { last_readback = some v.readback }) id refl i
              (phase-push trace (row_updated c)
                ∙ (after_row-observation (phase trace) _ _ _ _ ∙ ph));
      })

  judge-Concludes :
      (tag : Text) (trigger : MvVerificationTrigger)
      → p.id ≡ some id
      → t.pending ≡ none
      → phase trace ≡ unconfirmed
      → Held true n (some t) trace
      → Concludes true n trace (judge fl db tag t p v trigger required)
  unfolding judge
  judge-Concludes tag trigger i taken ph h =
      let matches = actuation_matches fl p.target v.readback p.tolerance in
      if_cases (Concludes true n trace) (ltb p.deadline v.checked_instant) _ _
        (λ _. give_up-Concludes tag _ i h)
        (λ _.
          if_cases (Concludes true n trace) matches _ _ (λ _. confirm-Concludes i taken ph h)
            (λ _.
              if_cases (Concludes true n trace)
                (is_deadline trigger || leb p.deadline v.checked_instant) _ _
                (λ _. give_up-Concludes tag _ i h) (λ _. keep_pending-Concludes i ph h)))

module _ {F D E : Type 0} (fl : Floats F D) (db : AuditCall F → Result E ℕ) (n : ℕ)
    (trace : List (Call F)) (v : PendingMvVerificationValue F) (tag : Text)
    (trigger : MvVerificationTrigger) where
  conclude_from :
      {tracked : Bool} (t : MvActuationTracker F)
      → Held tracked n (some t) trace
      → Commands trace tracked (some t)
      → Concludes tracked n trace (finalize_pending_mv_verification fl db tag t v trigger required)
  unfolding finalize_pending_mv_verification
  conclude_from t h (settled e ph) =
      rw e (record { concluded = rw (append-nil trace) (Held-other t _ trace h) })
  conclude_from t h (awaiting p id e i ph) = rw e (
      judge-Concludes fl db n trace (record t { pending = none }) p id v tag trigger i refl ph
        (Held-other t _ trace h))

  pub finalize-Concludes :
      {tracked : Bool} (t : MvActuationTracker F)
      → Linked tracked n (some t) trace
      → Concludes tracked n trace (finalize_pending_mv_verification fl db tag t v trigger required)
  finalize-Concludes t l = conclude_from t (Linked-Held l) l.commands
