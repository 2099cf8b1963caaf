-- ===== src/Runtime/Ownership/Audit.antt =====
-- What a write through the driver that records its writes leaves in the trace.
use bhtune.Common.{
  ℕ, ◌≡◌, refl, ◌∙◌, sym, Bool, true, false, inl, inr, List, [], ◌∷◌, ◌++◌, push, Option,
  if◌then◌else◌, Bool-cases,
}
use mathlib.Core.List.{append-nil, append_assoc}
use bhtune.Common.Text.{Text, text_eq}
use bhtune.Common.Result.{Result, ok, err, map_err, fail_if}
use bhtune.Common.Io.{◌>>=◌, ◌>>◌, then_with, lift}
use bhtune.Float.{Floats}
use bhtune.Driver.{TagWrite, WriteOutcome}
use bhtune.Runtime.Ownership.{
  LiveOwner, LiveError, external, confirmed_step, failed_step, NewLiveMutationStep, Effect,
  step_begun, tag_written, step_finished, Gateway, Session, head, tail, heartbeat_lost, step_status,
  ensure_healthy, write_target, take_previous_write_value, begin_step, changed, answered,
  step_detail, forward, record_and_forward, write_audited,
}

-- The effects of a write with the intent `step`, by what it returns: none, so that nothing was sent; or
-- the recorded intent and the write, with the recorded end of this very step if the database made it.
-- The end is marked as confirmed exactly if the driver accepted.
pub data Forwarding {F R E : Type 0} (step : NewLiveMutationStep F)
    : Result (LiveError E) WriteOutcome → List (Effect F R) → Type 0 where
  refused : {e : LiveError E} → Forwarding step (err e) []
  accepted :
      {o : WriteOutcome} (id : ℕ)
      → o.success ≡ true
      → Forwarding step (ok o) (
          step_begun id step
          ∷ tag_written step.target_tag step.target_value
          ∷ step_finished id confirmed_step
          ∷ [])
  rejected :
      {o : WriteOutcome} (id : ℕ)
      → o.success ≡ false
      → Forwarding step (ok o) (
          step_begun id step
          ∷ tag_written step.target_tag step.target_value
          ∷ step_finished id failed_step
          ∷ [])
  failed :
      {e : LiveError E} (id : ℕ)
      → Forwarding step (err e) (
          step_begun id step
          ∷ tag_written step.target_tag step.target_value
          ∷ step_finished id failed_step
          ∷ [])
  unfinished :
      {e : LiveError E} (id : ℕ)
      → Forwarding step
          (err e)
          (step_begun id step ∷ tag_written step.target_tag step.target_value ∷ [])

finished-Forwarding :
    {F R E : Type 0} (step : NewLiveMutationStep F) (id : ℕ) (result : Result E WriteOutcome)
    → Forwarding {R = R} step (map_err external result) (
        step_begun id step
        ∷ tag_written step.target_tag step.target_value
        ∷ step_finished id (step_status result)
        ∷ [])
finished-Forwarding step id (err e) = failed id
finished-Forwarding step id (ok o) = elim (Bool-cases o.success) [
  | inl h ↦ simp h (accepted id h)
  | inr h ↦ simp h (rejected id h)
]

two : {A : Type 0} (xs : List A) (a b : A) → push (push xs a) b ≡ xs ++ (a ∷ b ∷ [])
two xs a b = simp append_assoc

three :
    {A : Type 0} (xs : List A) (a b c : A) → push (push (push xs a) b) c ≡ xs ++ (a ∷ b ∷ c ∷ [])
three xs a b c = simp append_assoc

module _ {W F R E : Type 0} where
  -- The code ended with `r`, and its effects are those of a write with `step`.
  pub record Forwards (step : NewLiveMutationStep F) (s : Session W F R)
      (r : Result (LiveError E) WriteOutcome × Session W F R) : Type 0 where
    pub effects : List (Effect F R)
    pub forwarding : Forwarding step r.0 effects
    pub trace : r.1.trace ≡ s.trace ++ effects

  Forwards-refused :
      (step : NewLiveMutationStep F) (s t : Session W F R) (e : LiveError E)
      → t.trace ≡ s.trace
      → Forwards step s (err e, t)
  Forwards-refused step s t e h = record {
    effects = [];
    forwarding = refused;
    trace = h ∙ sym (append-nil s.trace);
  }

module _ {W F R E D : Type 0} (fl : Floats F D) (gateway : Gateway W F R E) (owner : LiveOwner)
    (run_id : Option ℕ) (tag : Text) (v : TagWrite F) where
  -- The intent of the write: it holds the value that was queued first for the tag.
  abbrev pub intent_of : Session W F R → NewLiveMutationStep F
  intent_of s = record {
    owner_id = owner.id;
    run_id = run_id;
    target_tag = tag;
    target_value = v;
    previous = head (s.queued tag);
  }

  -- Behind a recorded intent: the write was sent, whatever the end of the step.
  sent-Forwards :
      (step : NewLiveMutationStep F) (s : Session W F R) (id : ℕ) (result : Result E WriteOutcome)
      (finished : Result E (Unit {0}) × W)
      → Forwards step s (
          answered result (
            changed
              (λ _. step_finished id (step_status result))
              finished
              (record s {
                trace =
                    push
                      (push s.trace (step_begun id step))
                      (tag_written step.target_tag step.target_value);
              })))
  sent-Forwards step s id result (err e, w) = record {
    effects = _;
    forwarding = unfinished id;
    trace = two s.trace _ _;
  }
  sent-Forwards step s id result (ok _, w) = record {
    effects = _;
    forwarding = finished-Forwarding step id result;
    trace = three s.trace _ _ _;
  }

  begun-Forwards :
      (step : NewLiveMutationStep F) (s : Session W F R) (r : Result E ℕ × W)
      → Forwards step s (
          then_with
            (changed (λ id. step_begun id step) r s)
            (λ id. forward fl gateway owner id step.target_tag step.target_value))
  unfolding forward
  begun-Forwards step s (err e, w) = Forwards-refused step s _ _ refl
  begun-Forwards step s (ok id, w) =
      let (result, w') = gateway.write w step.target_tag step.target_value in
      let f =
        sent-Forwards step (record s { world = w }) id result
          (gateway.finish_step w' id (step_status result) (step_detail result)) in
      record { effects = f.effects; forwarding = f.forwarding; trace = f.trace }

  targeted-Forwards :
      (s : Session W F R) (w : W) (r : Result (LiveError E) (Unit {0}))
      → Forwards (intent_of s) s (
          then_with
            (r, record s { world = w })
            (λ _.
              take_previous_write_value tag >>= record_and_forward fl gateway owner run_id tag v))
  unfolding take_previous_write_value record_and_forward begin_step
  targeted-Forwards s w (err e) = Forwards-refused (intent_of s) s _ e refl
  targeted-Forwards s w (ok _) =
      let f =
        begun-Forwards (intent_of s)
          (record s {
            world = w;
            queued = λ t. if text_eq t tag then tail (s.queued t) else s.queued t;
          })
          (gateway.begin_step w (intent_of s)) in
      record { effects = f.effects; forwarding = f.forwarding; trace = f.trace }

  healthy-Forwards :
      (s : Session W F R) (w : W) (lost : Bool)
      → Forwards (intent_of s) s (
          then_with
            (fail_if lost heartbeat_lost, record s { world = w })
            (λ _.
              lift (write_target fl gateway owner v)
              >> (take_previous_write_value tag
                  >>= record_and_forward fl gateway owner run_id tag v)))
  healthy-Forwards s w true = Forwards-refused (intent_of s) s _ heartbeat_lost refl
  healthy-Forwards s w false = targeted-Forwards s w (write_target fl gateway owner v)

  -- Whatever the driver, the database and the heartbeat do, a write through the driver that records
  -- its writes is sent only behind its intent, which the database has recorded and which names the
  -- owner, the run, the tag, the value and the former value queued for the tag. Behind the write stands
  -- the end of this step, if the database recorded it. A write that is reported as accepted was sent and
  -- its step is marked as confirmed; one that is reported as rejected was sent and its step is marked as
  -- failed; behind an error nothing was sent, or the step is marked as failed or has no recorded end.
  pub write_audited-Forwards :
      (s : Session W F R) → Forwards (intent_of s) s (write_audited fl gateway owner run_id tag v s)
  unfolding write_audited ensure_healthy
  write_audited-Forwards s =
      let (lost, w) = gateway.heartbeat_failed s.world in healthy-Forwards s w lost
