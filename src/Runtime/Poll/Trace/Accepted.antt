-- ===== src/Runtime/Poll/Trace/Accepted.antt =====
-- What a write and its acceptance do to the order of commands.
use bhtune.Common.{ℕ, ◌≡◌, refl, ◌∙◌, ap, Bool, List, push, Option, none, some}
use bhtune.Runtime.Actuation.{PendingMvActuation, MvActuationTracker, accept_pending}
use bhtune.Runtime.World.{Call, NewTuneMvActuation, mv_written, pending_inserted}
use bhtune.Runtime.Tracking.{pending_in}
use bhtune.Runtime.Poll.Trace.{
  sample_indices, after_write, after_event, phase-push, samples_push, Commands, untracked, settled,
  awaiting, Kept, not_tracked, kept, Linked, Held, Written, Out, no_tracker, one_out,
}

module _ {F : Type 0} where
  Out-mv_written :
      {tracked : Bool} {tracker : Option (MvActuationTracker F)} (trace : List (Call F)) (v : F)
      → pending_in tracker ≡ none
      → Commands trace tracked tracker
      → Out (push trace (mv_written v)) tracked tracker
  unfolding after_event after_write
  Out-mv_written trace v quiet untracked = no_tracker
  Out-mv_written trace v quiet (settled e ph) =
      one_out (phase-push trace (mv_written v) ∙ ap after_write ph)
  Out-mv_written trace v quiet (awaiting p id e i ph) = cc

  pub Linked-Written :
      {tracked : Bool} {n : ℕ} {tracker : Option (MvActuationTracker F)} (trace : List (Call F))
      (v : F)
      → pending_in tracker ≡ none
      → Linked tracked n tracker trace
      → Written tracked n tracker (push trace (mv_written v))
  unfolding sample_indices
  Linked-Written trace v quiet h = record {
    samples = samples_push _ trace (mv_written v) refl h.samples;
    out = Out-mv_written trace v quiet h.commands;
  }

  Kept-Out :
      {tracked : Bool} {tracker : Option (MvActuationTracker F)} {trace : List (Call F)}
      → Out trace tracked tracker
      → Kept trace tracked tracker
  Kept-Out no_tracker = not_tracked
  Kept-Out (one_out e) = kept (λ k. cc)

  pub Written-Held :
      {tracked : Bool} {n : ℕ} (tracker : Option (MvActuationTracker F)) (trace : List (Call F))
      → Written tracked n tracker trace
      → Held tracked n tracker trace
  Written-Held tracker trace h = record { samples = h.samples; order = Kept-Out h.out }

  -- Without a tracker nothing has to be recorded.
  untracked-Commands :
      {tracked : Bool} {trace : List (Call F)}
      → Out trace tracked none
      → Commands trace tracked none
  untracked-Commands no_tracker = untracked

  pub Written-untracked :
      {tracked : Bool} {n : ℕ} (trace : List (Call F))
      → Written tracked n none trace
      → Linked tracked n none trace
  Written-untracked trace h = record { samples = h.samples; commands = untracked-Commands h.out }

  Out-row :
      {tracked : Bool} {tracker : Option (MvActuationTracker F)} (trace : List (Call F))
      (row : NewTuneMvActuation F)
      → Out trace tracked tracker
      → Out (push trace (pending_inserted row)) tracked tracker
  unfolding after_event
  Out-row trace row no_tracker = no_tracker
  Out-row trace row (one_out e) = one_out (phase-push trace (pending_inserted row) ∙ e)

  -- The row of an accepted command.
  pub Written-row :
      {tracked : Bool} {n : ℕ} (t : MvActuationTracker F) (trace : List (Call F))
      (row : NewTuneMvActuation F)
      → Written tracked n (some t) trace
      → Written tracked n (some t) (push trace (pending_inserted row))
  unfolding sample_indices
  Written-row t trace row h = record {
    samples = samples_push _ trace (pending_inserted row) refl h.samples;
    out = Out-row trace row h.out;
  }

  accepted-Commands :
      {tracked : Bool} {t : MvActuationTracker F} {trace : List (Call F)} (p : PendingMvActuation F)
      (id : ℕ)
      → p.id ≡ some id
      → Out trace tracked (some t)
      → Commands trace tracked (some (accept_pending t p))
  unfolding accept_pending
  accepted-Commands p id i (one_out e) = awaiting p id refl i e

  pub Written-accepted :
      {tracked : Bool} {n : ℕ} (t : MvActuationTracker F) (trace : List (Call F))
      (p : PendingMvActuation F) (id : ℕ)
      → p.id ≡ some id
      → Written tracked n (some t) trace
      → Linked tracked n (some (accept_pending t p)) trace
  Written-accepted t trace p id i h = record {
    samples = h.samples;
    commands = accepted-Commands p id i h.out;
  }
