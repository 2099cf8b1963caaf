-- ===== src/Runtime/Poll/Trace.antt =====
-- What the trace of a run says: the indices of the stored samples, and the order of MV writes and
-- confirmations. `Linked` is the invariant between two turns of the polling loop, `Held` what is left
-- of it when a run ends.
pub mod Judged
pub mod Accepted
use bhtune.Common.{
  ℕ, zero, suc, ◌+◌, ◌≡◌, ◌≢◌, arith, refl, sym, Bool, true, false, ap, ◌∙◌, List, [], ◌∷◌, ◌++◌,
  push, map, Option, none, some,
}
use mathlib.Core.List.{append-nil}
use bhtune.Runtime.Actuation.{PendingMvActuation, MvActuationTracker}
use bhtune.Runtime.Actuation.Verify.{
  MvActuationStatus, confirmed_status, pending_status, failed_status, unverified_status,
  superseded_status, AuditCall, record_observation, record_final_observation, finalize_row,
}
use bhtune.Runtime.Tracking.{without_pending}
use bhtune.Runtime.World.{Call, mv_written, sample_inserted, pending_inserted, row_updated}

-- 0, 1, ..., n - 1.
unfoldable pub upto : ℕ → List ℕ
upto zero = []
upto (suc n) = push (upto n) n

-- The confirmation phase of a trace: no command out, one written and unconfirmed, or a second one
-- written before the first was confirmed.
pub data Phase : Type 0 where
  all_confirmed unconfirmed overwritten : Phase

unfoldable pub after_write : Phase → Phase
after_write all_confirmed = unconfirmed
after_write unconfirmed = overwritten
after_write overwritten = overwritten

add_one : (n : ℕ) → n + 1 ≡ suc n
add_one n = omega arith

module _ {F : Type 0} where
  unfoldable pub sample_indices : List (Call F) → List ℕ
  sample_indices [] = []
  sample_indices (sample_inserted i _ _ _ ∷ rest) = i ∷ sample_indices rest
  sample_indices (mv_written _ ∷ rest) = sample_indices rest
  sample_indices (pending_inserted _ ∷ rest) = sample_indices rest
  sample_indices (row_updated _ ∷ rest) = sample_indices rest

  sample_indices-append :
      (xs ys : List (Call F)) → sample_indices (xs ++ ys) ≡ sample_indices xs ++ sample_indices ys
  unfolding sample_indices
  sample_indices-append [] ys = refl
  sample_indices-append (sample_inserted i _ _ _ ∷ xs) ys =
      ap (λ l. i ∷ l) (sample_indices-append xs ys)
  sample_indices-append (mv_written _ ∷ xs) ys = sample_indices-append xs ys
  sample_indices-append (pending_inserted _ ∷ xs) ys = sample_indices-append xs ys
  sample_indices-append (row_updated _ ∷ xs) ys = sample_indices-append xs ys

  unfoldable pub after_row : Phase → AuditCall F → Phase
  after_row unconfirmed (record_final_observation _ _ _ _ confirmed_status _) = all_confirmed
  after_row phase _ = phase

  unfoldable pub after_event : Phase → Call F → Phase
  unfolding after_write after_row
  after_event phase (mv_written _) = after_write phase
  after_event phase (row_updated c) = after_row phase c
  after_event phase (sample_inserted _ _ _ _) = phase
  after_event phase (pending_inserted _) = phase

  unfoldable pub phase_from : Phase → List (Call F) → Phase
  unfolding after_event
  phase_from phase [] = phase
  phase_from phase (c ∷ rest) = phase_from (after_event phase c) rest

  abbrev pub phase : List (Call F) → Phase
  phase trace = phase_from all_confirmed trace

  phase_from-append :
      (p : Phase) (xs ys : List (Call F))
      → phase_from p (xs ++ ys) ≡ phase_from (phase_from p xs) ys
  unfolding phase_from
  phase_from-append p [] ys = refl
  phase_from-append p (x ∷ xs) ys = phase_from-append (after_event p x) xs ys

  -- Whether a command is out agrees with the trace; without a tracker nothing is claimed.
  pub data Commands (trace : List (Call F)) : Bool → Option (MvActuationTracker F) → Type 0 where
    untracked : Commands trace false none
    settled :
        {t : MvActuationTracker F}
        → t.pending ≡ none
        → phase trace ≡ all_confirmed
        → Commands trace true (some t)
    awaiting :
        {t : MvActuationTracker F} (p : PendingMvActuation F) (id : ℕ)
        → t.pending ≡ some p
        → p.id ≡ some id
        → phase trace ≡ unconfirmed
        → Commands trace true (some t)

  -- No tracked command was overwritten.
  pub data Kept (trace : List (Call F)) : Bool → Option (MvActuationTracker F) → Type 0 where
    not_tracked : Kept trace false none
    kept : {t : MvActuationTracker F} → phase trace ≢ overwritten → Kept trace true (some t)

  pub record Linked (tracked : Bool) (n : ℕ) (tracker : Option (MvActuationTracker F))
      (trace : List (Call F)) : Type 0 where
    pub samples : sample_indices trace ≡ upto n
    pub commands : Commands trace tracked tracker

  pub data Out (trace : List (Call F)) : Bool → Option (MvActuationTracker F) → Type 0 where
    no_tracker : Out trace false none
    one_out : {t : MvActuationTracker F} → phase trace ≡ unconfirmed → Out trace true (some t)

  -- A command was just written.
  pub record Written (tracked : Bool) (n : ℕ) (tracker : Option (MvActuationTracker F))
      (trace : List (Call F)) : Type 0 where
    pub samples : sample_indices trace ≡ upto n
    pub out : Out trace tracked tracker

  pub record Held (tracked : Bool) (n : ℕ) (tracker : Option (MvActuationTracker F))
      (trace : List (Call F)) : Type 0 where
    pub samples : sample_indices trace ≡ upto n
    pub order : Kept trace tracked tracker

  Commands-Kept :
      {tracked : Bool} {trace : List (Call F)} {tracker : Option (MvActuationTracker F)}
      → Commands trace tracked tracker
      → Kept trace tracked tracker
  Commands-Kept untracked = not_tracked
  Commands-Kept (settled _ e) = kept (λ o. cc)
  Commands-Kept (awaiting _ _ _ _ e) = kept (λ o. cc)

  pub Linked-Held :
      {tracked : Bool} {n : ℕ} {tracker : Option (MvActuationTracker F)} {trace : List (Call F)}
      → Linked tracked n tracker trace
      → Held tracked n tracker trace
  Linked-Held h = record { samples = h.samples; order = Commands-Kept h.commands }

  pub phase-push :
      (trace : List (Call F)) (c : Call F) → phase (push trace c) ≡ after_event (phase trace) c
  unfolding phase_from
  phase-push trace c = phase_from-append all_confirmed trace (c ∷ [])

  after_row-kept : (p : Phase) (c : AuditCall F) → p ≢ overwritten → after_row p c ≢ overwritten
  unfolding after_row
  after_row-kept all_confirmed c h = h
  after_row-kept overwritten c h = h
  after_row-kept unconfirmed (record_observation _ _ _ _) h = h
  after_row-kept unconfirmed (finalize_row _ _ _) h = h
  after_row-kept unconfirmed (record_final_observation _ _ _ _ confirmed_status _) h = λ e. cc
  after_row-kept unconfirmed (record_final_observation _ _ _ _ pending_status _) h = h
  after_row-kept unconfirmed (record_final_observation _ _ _ _ failed_status _) h = h
  after_row-kept unconfirmed (record_final_observation _ _ _ _ unverified_status _) h = h
  after_row-kept unconfirmed (record_final_observation _ _ _ _ superseded_status _) h = h

  Kept-row :
      {tracked : Bool} {tracker : Option (MvActuationTracker F)} (trace : List (Call F))
      (c : AuditCall F)
      → Kept trace tracked tracker
      → Kept (push trace (row_updated c)) tracked tracker
  unfolding after_event
  Kept-row trace c not_tracked = not_tracked
  Kept-row trace c (kept h) =
      kept (λ e. after_row-kept (phase trace) c h (sym (phase-push trace (row_updated c)) ∙ e))

  pub samples_push :
      (n : ℕ) (trace : List (Call F)) (c : Call F)
      → sample_indices (c ∷ []) ≡ []
      → sample_indices trace ≡ upto n
      → sample_indices (push trace c) ≡ upto n
  samples_push n trace c none_there h =
      rw (sample_indices-append trace (c ∷ []), none_there, append-nil (sample_indices trace)) h

  Kept-other :
      {tracked : Bool} {t u : MvActuationTracker F} {trace : List (Call F)}
      → Kept trace tracked (some t)
      → Kept trace tracked (some u)
  Kept-other (kept h) = kept h

  pub Held-other :
      {tracked : Bool} {n : ℕ} (t u : MvActuationTracker F) (trace : List (Call F))
      → Held tracked n (some t) trace
      → Held tracked n (some u) trace
  Held-other t u trace h = record { samples = h.samples; order = Kept-other h.order }

  pub Held-taken :
      {tracked : Bool} {n : ℕ} (tracker : Option (MvActuationTracker F)) (trace : List (Call F))
      → Held tracked n tracker trace
      → Held tracked n (without_pending tracker) trace
  Held-taken none trace h = h
  Held-taken (some t) trace h = Held-other t _ trace h

  -- A row never spoils the order, whatever it says.
  pub Held-row :
      {tracked : Bool} {n : ℕ} {tracker : Option (MvActuationTracker F)} (trace : List (Call F))
      (c : AuditCall F)
      → Held tracked n tracker trace
      → Held tracked n tracker (push trace (row_updated c))
  unfolding sample_indices
  Held-row trace c h = record {
    samples = samples_push _ trace (row_updated c) refl h.samples;
    order = Kept-row trace c h.order;
  }

  samples_next :
      {n : ℕ} (trace : List (Call F)) (c : Call F)
      → sample_indices (c ∷ []) ≡ n ∷ []
      → sample_indices trace ≡ upto n
      → sample_indices (push trace c) ≡ upto (n + 1)
  unfolding upto
  samples_next {n = n} trace c there h =
      rw (add_one n, sample_indices-append trace (c ∷ []), there, h) refl

  Kept-same :
      {tracked : Bool} {tracker : Option (MvActuationTracker F)} {trace trace' : List (Call F)}
      → phase trace' ≡ phase trace
      → Kept trace tracked tracker
      → Kept trace' tracked tracker
  Kept-same e not_tracked = not_tracked
  Kept-same e (kept h) = kept (λ k. h (sym e ∙ k))

  pub Commands-same :
      {tracked : Bool} {tracker : Option (MvActuationTracker F)} {trace trace' : List (Call F)}
      → phase trace' ≡ phase trace
      → Commands trace tracked tracker
      → Commands trace' tracked tracker
  Commands-same e untracked = untracked
  Commands-same e (settled p k) = settled p (e ∙ k)
  Commands-same e (awaiting p id h i k) = awaiting p id h i (e ∙ k)

  module _ (i : ℕ) (tick : _) (state : _) (quality : _) where
    pub Held-sample :
        {tracked : Bool} {tracker : Option (MvActuationTracker F)} (trace : List (Call F))
        → Held tracked i tracker trace
        → Held tracked (i + 1) tracker (push trace (sample_inserted i tick state quality))
    unfolding sample_indices after_event
    Held-sample trace h = record {
      samples = samples_next trace _ refl h.samples;
      order = Kept-same (phase-push trace _) h.order;
    }

    pub Linked-sample :
        {tracked : Bool} {tracker : Option (MvActuationTracker F)} (trace : List (Call F))
        → Linked tracked i tracker trace
        → Linked tracked (i + 1) tracker (push trace (sample_inserted i tick state quality))
    unfolding sample_indices after_event
    Linked-sample trace h = record {
      samples = samples_next trace _ refl h.samples;
      commands = Commands-same (phase-push trace _) h.commands;
    }
