-- ===== src/Runtime/Writeback/Steps.antt =====
-- What the loop over the constants and the rollback leave in the log.
use bhtune.Common.{
  ◌≡◌, refl, ap, ◌⊎◌, inl, inr, Bool, true, false, List, [], ◌∷◌, ◌++◌, Option, none, some,
  if◌then◌else◌,
}
use bhtune.Common.Text.{Text, Chars}
use bhtune.Common.Result.{Result, ok, err, map_err, map_err_ok}
use bhtune.Common.Io.{
  Ends, done, stopped, Ends-then_with, Ends-lift, Ends-map_err, Ends-weaken, Ends-attempt, attempt,
}
use bhtune.Float.{Floats}
use bhtune.Runtime.Quality.{TagValue, ReadError, read_raw, read_f32}
use bhtune.Driver.{float, WriteOutcome}
use bhtune.Runtime.Ownership.{
  LiveOwner, LiveError, tag_read, Gateway, Session, queue_previous_write_value,
}
use bhtune.Runtime.Writeback.{
  PidError, WriteError, RollbackFailure, rollback_write_failed, NewTuneWrite, Step, Progress, Job,
  Json, Writing, note_written, note_confirmed, continue_with, failure_of,
  pid_value_within_tolerance, read_value, write_value, write_outcome, write_and_verify_pid_value,
  answer_of, write_steps, rollback_step, rollback_pid_writes,
}
use bhtune.Runtime.Writeback.Log.{
  Entry, seen, wrote, Log, Log-refl, Log-trans, Log-effect, Tried, write_audited-Log,
}

-- A constant's target, and the value that it had, as entries of the log.
abbrev pub target_entry : {F R : Type 0} → Step F → Entry F R
target_entry x = wrote x.tag (float x.value)

abbrev pub previous_entry : {F R : Type 0} → Step F → Entry F R
previous_entry x = wrote x.tag (float x.previous)

-- What a driver's answer for a tag says: a number, if it is trusted and parses.
abbrev pub Reading : Type 0 → Type 0
Reading F = Text → Option TagValue → Option F

abbrev pub ok_of : {E A : Type 0} → Result E A → Option A
ok_of (ok a) = some a
ok_of (err _) = none

abbrev pub number_in :
    {F D : Type 0} → Type 0 → Floats F D → Chars → (Text → Option F) → Bool → Reading F
number_in E fl ch parse allow_uncertain tag answer =
    ok_of (read_f32 {E = E} fl ch parse (λ _. ok answer) tag allow_uncertain)

-- A readback that may be missing.
abbrev pub seen_if : {F R : Type 0} → Text → Option (Option TagValue) → List (Entry F R)
seen_if tag none = []
seen_if tag (some answer) = seen tag answer ∷ []

-- The loop over the steps `xs`, from one progress to another: the log and the failure. A confirmed step
-- was written and its tag read back within the tolerance; the step that failed may have been written,
-- and then read back.
pub data Loop {F D E R : Type 0} (fl : Floats F D) (reading : Reading F)
    : List (Step F)
      → Progress F
      → Progress F
      → List (Entry F R)
      → Option (PidError F E)
      → Type 0 where
  through : {p : Progress F} → Loop fl reading [] p p [] none
  confirmed :
      {x : Step F} {xs : List (Step F)} {p q : Progress F} {w : List (Entry F R)}
      {e : Option (PidError F E)} (readback : F) (answer : Option TagValue)
      → pid_value_within_tolerance fl x.value readback ≡ true
      → reading x.tag answer ≡ some readback
      → Loop fl reading xs (note_confirmed x readback p) q w e
      → Loop fl reading (x ∷ xs) p q (target_entry x ∷ seen x.tag answer ∷ w) e
  not_sent :
      {x : Step F} {xs : List (Step F)} {p : Progress F} {e : PidError F E}
      → Loop fl reading (x ∷ xs) p (note_written x p) [] (some e)
  not_confirmed :
      {x : Step F} {xs : List (Step F)} {p : Progress F} {e : PidError F E}
      (readback : Option (Option TagValue))
      → Loop fl reading
          (x ∷ xs)
          p
          (note_written x p)
          (target_entry x ∷ seen_if x.tag readback)
          (some e)

-- The rollback of the steps `xs`: the log, and the failures. Each step is tried.
pub data Undo {F E R : Type 0}
    : List (Step F) → List (Entry F R) → List (RollbackFailure E) → Type 0 where
  all_tried : Undo [] [] []
  undone :
      {x : Step F} {xs : List (Step F)} {w : List (Entry F R)} {f : List (RollbackFailure E)}
      → Undo xs w f
      → Undo (x ∷ xs) (previous_entry x ∷ w) f
  undo_not_sent :
      {x : Step F} {xs : List (Step F)} {w : List (Entry F R)} {f : List (RollbackFailure E)}
      {e : RollbackFailure E}
      → Undo xs w f
      → Undo (x ∷ xs) w (e ∷ f)
  undo_refused :
      {x : Step F} {xs : List (Step F)} {w : List (Entry F R)} {f : List (RollbackFailure E)}
      {e : RollbackFailure E}
      → Undo xs w f
      → Undo (x ∷ xs) (previous_entry x ∷ w) (e ∷ f)

module _ {W F D E J : Type 0} (fl : Floats F D) (ch : Chars) (parse : Text → Option F)
    (json : Json J F) (gateway : Gateway W F (NewTuneWrite F E) E) (owner : LiveOwner)
    (job : Job F) where
  -- What the answers of this job's reads say.
  abbrev pub reads : Reading F
  reads = number_in E fl ch parse job.allow_uncertain

  resolved_of :
      {G : Type 0} (failed : ReadError E → G) (tag : Text) (r : Result E (Option TagValue)) {v : F}
      → map_err failed (read_f32 fl ch parse (λ _. r) tag job.allow_uncertain) ≡ ok v
      → reads tag (answer_of r) ≡ some v
  unfolding read_f32 read_raw
  resolved_of failed tag (ok answer) {v = v} h =
      ap ok_of (
        map_err_ok failed (read_f32 {E = E} fl ch parse (λ _. ok answer) tag job.allow_uncertain) h)
  resolved_of failed tag (err e) h = cc

  pub read_value-Log :
      {G : Type 0} {s t : Session W F (NewTuneWrite F E)} {a : List (Entry F (NewTuneWrite F E))}
      (failed : ReadError E → G) (tag : Text)
      → Log s a t
      → Ends
          (λ v u.
            (answer : Option TagValue) × (reads tag answer ≡ some v)
            × Log s (a ++ seen tag answer ∷ []) u)
          (λ u. (answer : Option TagValue) × Log s (a ++ seen tag answer ∷ []) u)
          (read_value fl ch parse json gateway owner job failed tag t)
  unfolding read_value
  read_value-Log {t = t} failed tag h =
      let (r, w) = gateway.read t.world tag in
      Ends-lift (map_err failed (read_f32 fl ch parse (λ _. r) tag job.allow_uncertain)) _
        (λ v e.
          (answer_of r, resolved_of failed tag r e, Log-effect w (tag_read tag (answer_of r)) h))
        (answer_of r, Log-effect w (tag_read tag (answer_of r)) h)

  outcome-Log :
      {s : Session W F (NewTuneWrite F E)} {x : Entry F (NewTuneWrite F E)}
      {r : Result (LiveError E) WriteOutcome × Session W F (NewTuneWrite F E)}
      → Ends (λ _ t. Log s (x ∷ []) t) (Tried s x) r
      → Ends (λ _ t. Log s (x ∷ []) t) (Tried s x) (write_outcome r.0, r.1)
  unfolding write_outcome
  outcome-Log (done {a = o} q) = Ends-lift _ _ (λ _ _. q) (inr q)
  outcome-Log (stopped h) = stopped h

  write_value-Log :
      {G : Type 0} (failed : WriteError E → G) (tag : Text) (v : F)
      (s : Session W F (NewTuneWrite F E))
      → Ends
          (λ _ t. Log s (wrote tag (float v) ∷ []) t)
          (Tried s (wrote tag (float v)))
          (write_value fl ch parse json gateway owner job failed tag v s)
  unfolding write_value
  write_value-Log failed tag v s =
      Ends-map_err failed (outcome-Log (write_audited-Log fl gateway owner _ tag (float v) s))

  -- A target that was sent and read back within the tolerance; one that was not confirmed.
  abbrev Near :
      Step F → Session W F (NewTuneWrite F E) → F → Session W F (NewTuneWrite F E) → Type 0
  Near x s v t =
      (answer : Option TagValue) × (pid_value_within_tolerance fl x.value v ≡ true)
      × (reads x.tag answer ≡ some v)
      × Log s (target_entry x ∷ seen x.tag answer ∷ []) t

  abbrev Missed : Step F → Session W F (NewTuneWrite F E) → Session W F (NewTuneWrite F E) → Type 0
  Missed x s t =
      Log s [] t
      ⊎ ((readback : Option (Option TagValue)) × Log s (target_entry x ∷ seen_if x.tag readback) t)

  judged-Log :
      (x : Step F) {s t : Session W F (NewTuneWrite F E)} (readback : F) (e : PidError F E)
      (b : Bool) (answer : Option TagValue)
      → pid_value_within_tolerance fl x.value readback ≡ b
      → reads x.tag answer ≡ some readback
      → Log s (target_entry x ∷ seen x.tag answer ∷ []) t
      → Ends (Near x s) (Missed x s) (if b then ok readback else err e, t)
  judged-Log x readback e true answer h r k = done (answer, h, r, k)
  judged-Log x readback e false answer h r k = stopped (inr (some answer, k))

  Tried-Missed :
      (x : Step F) {s t : Session W F (NewTuneWrite F E)}
      → Tried s (target_entry x) t
      → Missed x s t
  Tried-Missed x (inl h) = inl h
  Tried-Missed x (inr h) = inr (none, h)

  verify-Log :
      (x : Step F) (s : Session W F (NewTuneWrite F E))
      → Ends
          (Near x s)
          (Missed x s)
          (write_and_verify_pid_value fl ch parse json gateway owner job x.term x.tag x.value s)
  unfolding write_and_verify_pid_value
  verify-Log x s =
      Ends-then_with
        (Ends-weaken {R' = Missed x s} (write_value-Log _ x.tag x.value s) (λ _ _ q. q)
          (λ _ q. Tried-Missed x q))
        λ _ t h.
          Ends-then_with
            (Ends-weaken {R' = Missed x s} (read_value-Log _ x.tag h) (λ _ _ q. q)
              (λ _ q. inr (some q.0, q.1)))
            λ readback t q. judged-Log x readback _ _ q.0 refl q.1 q.2

  -- How the loop ends: it always does, with a progress and perhaps a failure.
  pub record LoopEnd (xs : List (Step F)) (p : Progress F) (s : Session W F (NewTuneWrite F E))
      (r : Progress F × Option (PidError F E)) (t : Session W F (NewTuneWrite F E)) : Type 0 where
    pub log : List (Entry F (NewTuneWrite F E))
    pub loop : Loop fl reads xs p r.0 log r.1
    pub logged : Log s log t

  LoopEnd-confirmed :
      (x : Step F) (xs : List (Step F)) (p : Progress F) (readback : F)
      {s t : Session W F (NewTuneWrite F E)}
      → Near x s readback t
      → (r : Progress F × Option (PidError F E)) (u : Session W F (NewTuneWrite F E))
      → LoopEnd xs (note_confirmed x readback p) t r u
      → LoopEnd (x ∷ xs) p s r u
  LoopEnd-confirmed x xs p readback (answer, h, a, k) r u l = record {
    log = target_entry x ∷ seen x.tag answer ∷ l.log;
    loop = confirmed readback answer h a l.loop;
    logged = Log-trans k l.logged;
  }

  LoopEnd-stopped :
      (x : Step F) (xs : List (Step F)) (p : Progress F) (e : PidError F E)
      {s t : Session W F (NewTuneWrite F E)}
      → Missed x s t
      → LoopEnd (x ∷ xs) p s (note_written x p, some e) t
  LoopEnd-stopped x xs p e (inl h) = record { log = []; loop = not_sent; logged = h }
  LoopEnd-stopped x xs p e (inr (readback, h)) = record {
    log = target_entry x ∷ seen_if x.tag readback;
    loop = not_confirmed readback;
    logged = h;
  }

  -- What a verified write leaves, as a value.
  abbrev Verified :
      Step F
      → Session W F (NewTuneWrite F E)
      → Result (PidError F E) F
      → Session W F (NewTuneWrite F E)
      → Type 0
  Verified x s (ok a) t = Near x s a t
  Verified x s (err e) t = Missed x s t

  Tried-queued :
      {s t : Session W F (NewTuneWrite F E)} (x : Step F) (v : F) {y : Entry F (NewTuneWrite F E)}
      → Tried (queue_previous_write_value x.tag v s) y t
      → Tried s y t
  unfolding queue_previous_write_value
  Tried-queued x v (inl h) = inl (record { added = h.added })
  Tried-queued x v (inr h) = inr (record { added = h.added })

  Log-queued :
      {s t : Session W F (NewTuneWrite F E)} (x : Step F) (v : F)
      {a : List (Entry F (NewTuneWrite F E))}
      → Log (queue_previous_write_value x.tag v s) a t
      → Log s a t
  unfolding queue_previous_write_value
  Log-queued x v h = record { added = h.added }

  Missed-queued :
      {s t : Session W F (NewTuneWrite F E)} (x : Step F) (v : F)
      → Missed x (queue_previous_write_value x.tag v s) t
      → Missed x s t
  Missed-queued x v (inl h) = inl (Log-queued x v h)
  Missed-queued x v (inr (readback, h)) = inr (readback, Log-queued x v h)

  Verified-Log :
      (x : Step F) (s : Session W F (NewTuneWrite F E))
      → Ends
          (Verified x s)
          (λ _. ⊥)
          (attempt {G = LiveError E}
            (write_and_verify_pid_value fl ch parse json gateway owner job x.term x.tag x.value)
            (queue_previous_write_value x.tag x.previous s))
  Verified-Log x s =
      Ends-attempt (verify-Log x (queue_previous_write_value x.tag x.previous s))
        (λ a t q. (q.0, q.1, q.2, Log-queued x x.previous q.3))
        (λ e t h. Missed-queued x x.previous h)

  -- The rest of the loop, behind a verified write.
  rest-LoopEnd :
      (x : Step F) (xs : List (Step F)) (p : Progress F) (s : Session W F (NewTuneWrite F E))
      (next : F → Writing W F E (LiveError E) (Progress F × Option (PidError F E)))
      → ((a : F) (t : Session W F (NewTuneWrite F E))
          → Ends (LoopEnd xs (note_confirmed x a p) t) (λ _. ⊥) (next a t))
      → (r : Result (PidError F E) F) (t : Session W F (NewTuneWrite F E)) → Verified x s r t
      → Ends (LoopEnd (x ∷ xs) p s) (λ _. ⊥) (continue_with x p next r t)
  rest-LoopEnd x xs p s next ih (ok a) t h =
      Ends-weaken (ih a t) (LoopEnd-confirmed x xs p a h) (λ _ z. z)
  rest-LoopEnd x xs p s next ih (err e) t h = done (LoopEnd-stopped x xs p e h)

  pub write_steps-LoopEnd :
      (xs : List (Step F)) (p : Progress F) (s : Session W F (NewTuneWrite F E))
      → Ends (LoopEnd xs p s) (λ _. ⊥) (write_steps fl ch parse json gateway owner job xs p s)
  unfolding write_steps
  write_steps-LoopEnd [] p s = done (record { log = []; loop = through; logged = Log-refl s })
  write_steps-LoopEnd (x ∷ xs) p s = Ends-then_with (Verified-Log x s) (
      rest-LoopEnd x xs p s
        (λ a. write_steps fl ch parse json gateway owner job xs (note_confirmed x a p))
        (λ a t. write_steps-LoopEnd xs (note_confirmed x a p) t))

  -- How the rollback ends.
  pub record UndoEnd (xs : List (Step F)) (s : Session W F (NewTuneWrite F E))
      (f : List (RollbackFailure E)) (t : Session W F (NewTuneWrite F E)) : Type 0 where
    pub log : List (Entry F (NewTuneWrite F E))
    pub undo : Undo xs log f
    pub logged : Log s log t

  -- One turn: nothing failed and it was written, or it failed and was written or not.
  data Undid (x : Step F) (s : Session W F (NewTuneWrite F E))
      : List (RollbackFailure E) → Session W F (NewTuneWrite F E) → Type 0 where
    undid : {t : Session W F (NewTuneWrite F E)} → Log s (previous_entry x ∷ []) t → Undid x s [] t
    undo_failed :
        {t : Session W F (NewTuneWrite F E)} {e : RollbackFailure E}
        → Tried s (previous_entry x) t
        → Undid x s (e ∷ []) t

  abbrev Either :
      Step F
      → Session W F (NewTuneWrite F E)
      → Result (RollbackFailure E) (Unit {0})
      → Session W F (NewTuneWrite F E)
      → Type 0
  Either x s (ok _) t = Log s (previous_entry x ∷ []) t
  Either x s (err e) t = Tried s (previous_entry x) t

  rolled-Undid :
      (x : Step F) (s t : Session W F (NewTuneWrite F E))
      (r : Result (RollbackFailure E) (Unit {0}))
      → Either x s r t
      → Undid x s (failure_of r) t
  rolled-Undid x s t (ok _) h = undid h
  rolled-Undid x s t (err e) h = undo_failed h

  undo-Undid :
      (x : Step F) (s : Session W F (NewTuneWrite F E)) (finite : Bool)
      → fl.is_finite x.value ≡ finite
      → Ends (Undid x s) (λ _. ⊥) (rollback_step fl ch parse json gateway owner job x s)
  unfolding rollback_step
  undo-Undid x s false e = rw e (done (undo_failed (inl (Log-refl s))))
  undo-Undid x s true e = rw e (
      Ends-then_with
        (Ends-attempt
          (write_value-Log (rollback_write_failed x.term x.tag) x.tag x.previous
            (queue_previous_write_value x.tag x.value s))
          (λ a t h. Log-queued x x.value h) (λ e t h. Tried-queued x x.value h))
        (λ r t h. done (rolled-Undid x s t r h)))

  UndoEnd-step :
      (x : Step F) (xs : List (Step F)) {s t u : Session W F (NewTuneWrite F E)}
      {f g : List (RollbackFailure E)}
      → Undid x s f t
      → UndoEnd xs t g u
      → UndoEnd (x ∷ xs) s (f ++ g) u
  UndoEnd-step x xs (undid h) r = record {
    log = _;
    undo = undone r.undo;
    logged = Log-trans h r.logged;
  }
  UndoEnd-step x xs (undo_failed (inl h)) r = record {
    log = _;
    undo = undo_not_sent r.undo;
    logged = Log-trans h r.logged;
  }
  UndoEnd-step x xs (undo_failed (inr h)) r = record {
    log = _;
    undo = undo_refused r.undo;
    logged = Log-trans h r.logged;
  }

  pub rollback_pid_writes-UndoEnd :
      (xs : List (Step F)) (s : Session W F (NewTuneWrite F E))
      → Ends (UndoEnd xs s) (λ _. ⊥) (rollback_pid_writes fl ch parse json gateway owner job xs s)
  unfolding rollback_pid_writes
  rollback_pid_writes-UndoEnd [] s =
      done (record { log = []; undo = all_tried; logged = Log-refl s })
  rollback_pid_writes-UndoEnd (x ∷ xs) s = Ends-then_with (undo-Undid x s _ refl) λ f t h.
      Ends-then_with (rollback_pid_writes-UndoEnd xs t) λ g u k. done (UndoEnd-step x xs h k)
