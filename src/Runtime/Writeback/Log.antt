-- ===== src/Runtime/Writeback/Log.antt =====
-- What the driver answered and was written and what the audit table was given, in order, and how each part of an
-- attempt adds to it.
use bhtune.Common.{ℕ, ◌≡◌, refl, ◌∙◌, ap, subst, ◌⊎◌, inl, inr, List, [], ◌∷◌, ◌++◌, push, Option}
use mathlib.Core.List.{append-nil, append_assoc}
use bhtune.Common.Text.{Text}
use bhtune.Common.Result.{Result, ok, err, map_err}
use bhtune.Common.Io.{Io, Ends, done, stopped, Ends-then_with, Ends-lift, Ends-weaken, then_with}
use bhtune.Float.{Floats}
use bhtune.Runtime.Quality.{TagValue}
use bhtune.Driver.{TagWrite, WriteOutcome}
use bhtune.Runtime.Ownership.{
  LiveOwner, LiveError, external, Effect, step_begun, tag_read, changed, answered, tag_written,
  step_finished, intent_set, row_inserted, owner_released, NewLiveMutationStep, Gateway, Session,
  ensure_healthy, write_audited, forward, begin_step, record_and_forward, take_previous_write_value,
  write_target, persist_restore_intent, release,
}

pub data Entry (F R : Type 0) : Type 0 where
  seen : Text → Option TagValue → Entry F R
  wrote : Text → TagWrite F → Entry F R
  row : R → Entry F R

module _ {F R : Type 0} where
  abbrev pub entry : Effect F R → List (Entry F R)
  entry (step_begun _ _) = []
  entry (tag_read tag answer) = seen tag answer ∷ []
  entry (tag_written tag v) = wrote tag v ∷ []
  entry (step_finished _ _) = []
  entry (intent_set _ _) = []
  entry (row_inserted _ r) = row r ∷ []
  entry (owner_released _) = []

  unfoldable pub entries : List (Effect F R) → List (Entry F R)
  entries [] = []
  entries (e ∷ es) = entry e ++ entries es

  entries-append : (xs ys : List (Effect F R)) → entries (xs ++ ys) ≡ entries xs ++ entries ys
  unfolding entries
  entries-append [] ys = refl
  entries-append (x ∷ xs) ys =
      ap (λ l. entry x ++ l) (entries-append xs ys) ∙ sym_assoc (entry x) (entries xs) (entries ys)
    where
      sym_assoc : (a b c : List (Entry F R)) → a ++ (b ++ c) ≡ (a ++ b) ++ c
      sym_assoc a b c = simp append_assoc

  entries-push :
      (xs : List (Effect F R)) (e : Effect F R) → entries (push xs e) ≡ entries xs ++ entry e
  unfolding entries
  entries-push xs e = entries-append xs (e ∷ []) ∙ simp append-nil

module _ {W F R : Type 0} where
  -- From `s` to `t` the entries `new` were added.
  pub record Log (s : Session W F R) (new : List (Entry F R)) (t : Session W F R) : Type 0 where
    pub added : entries t.trace ≡ entries s.trace ++ new

  pub Log-refl : (s : Session W F R) → Log s [] s
  Log-refl s = record { added = simp append-nil }

  pub Log-trans :
      {s t u : Session W F R} {a b : List (Entry F R)} → Log s a t → Log t b u → Log s (a ++ b) u
  Log-trans h k = record { added = simp (k.added, h.added, append_assoc) }

  pub Log-nil : {s t : Session W F R} {a : List (Entry F R)} → Log s (a ++ []) t → Log s a t
  Log-nil {s = s} {a = a} h = record {
    added = h.added ∙ ap (λ l. entries s.trace ++ l) (append-nil a);
  }

  pub Log-effect :
      {s t : Session W F R} {a : List (Entry F R)} (w : W) (e : Effect F R)
      → Log s a t
      → Log s (a ++ entry e) (record t { world = w; trace = push t.trace e })
  Log-effect {t = t} w e h = record { added = simp (entries-push, h.added, append_assoc) }

  -- A change of anything but the trace.
  pub Log-of :
      {s t u : Session W F R} {a : List (Entry F R)} → Log s a t → u.trace ≡ t.trace → Log s a u
  Log-of h e = record { added = ap entries e ∙ h.added }

  -- The entry was made, or the attempt ended before it.
  abbrev pub Tried : Session W F R → Entry F R → Session W F R → Type 0
  Tried s x t = Log s [] t ⊎ Log s (x ∷ []) t

module _ {W F R E : Type 0} where
  -- The entries `new` were added, however the code ended.
  abbrev pub Adds :
      {A : Type 0} → Session W F R → List (Entry F R) → Result E A × Session W F R → Type 0
  Adds s new r = Ends (λ _ t. Log s new t) (λ t. Log s new t) r

  pub Adds-of :
      {A : Type 0} {s t u : Session W F R} {a : List (Entry F R)} (r : Result E A)
      → Log s a t
      → u.trace ≡ t.trace
      → Adds s a (r, u)
  Adds-of r h e = Ends-lift r _ (λ _ _. Log-of h e) (Log-of h e)

  -- A part that adds nothing, before one that tries an entry.
  pub Ends-keep :
      {A B : Type 0} {s : Session W F R} {x : Entry F R} {Q : B → Session W F R → Type 0}
      {r : Result E A × Session W F R} {f : A → Io (Session W F R) E B}
      → Adds s [] r
      → ((a : A) (t : Session W F R) → Log s [] t → Ends Q (Tried s x) (f a t))
      → Ends Q (Tried s x) (then_with r f)
  Ends-keep h k = Ends-then_with (Ends-weaken {R' = Tried _ _} h (λ _ _ q. q) (λ _ q. inl q)) k

module _ {W F R E : Type 0} where
  -- A change of the database adds its entry if it was made.
  pub changed-Log :
      {A : Type 0} {s t : Session W F R} {a : List (Entry F R)} (effect : A → Effect F R)
      (r : Result E A × W)
      → Log s a t
      → Ends (λ v u. Log s (a ++ entry (effect v)) u) (λ u. Log s a u) (changed effect r t)
  changed-Log effect (ok v, w) h = done (Log-effect w (effect v) h)
  changed-Log effect (err e, w) h = stopped (Log-of h refl)

  -- One that stands for no entry.
  pub changed-nil :
      {A : Type 0} {s t : Session W F R} {a : List (Entry F R)} (effect : A → Effect F R)
      (r : Result E A × W)
      → ((v : A) → entry (effect v) ≡ [])
      → Log s a t
      → Adds s a (changed effect r t)
  changed-nil {s = s} {t = t} {a = a} effect (ok v, w) e h =
      let u = record t { world = w; trace = push t.trace (effect v) } in
      done (Log-nil (subst (λ l. Log s (a ++ l) u) (e v) (Log-effect w (effect v) h)))
  changed-nil effect (err e, w) _ h = stopped (Log-of h refl)

module _ {W F R E D : Type 0} (fl : Floats F D) (gateway : Gateway W F R E)
    (owner : LiveOwner) where
  pub ensure_healthy-Log :
      {s t : Session W F R} {a : List (Entry F R)}
      → Log s a t
      → Adds s a (ensure_healthy fl gateway owner t)
  unfolding ensure_healthy
  ensure_healthy-Log h = Adds-of _ h refl

  answered-Log :
      {s : Session W F R} {a : List (Entry F R)}
      {r : Result (LiveError E) (Unit {0}) × Session W F R} (result : Result E WriteOutcome)
      → Adds s a r
      → Adds s a (answered result r)
  answered-Log result (done q) = Ends-lift (map_err external result) _ (λ _ _. q) q
  answered-Log result (stopped h) = stopped h

  forward-Log :
      {s t : Session W F R} (id : ℕ) (tag : Text) (v : TagWrite F)
      → Log s [] t
      → Adds s (wrote tag v ∷ []) (forward fl gateway owner id tag v t)
  unfolding forward
  forward-Log {t = t} id tag v h = answered-Log _ (
      changed-nil (λ _. step_finished id _) _ (λ _. refl)
        (Log-effect t.world (tag_written tag v) h))

  begin_step-Log :
      {s t : Session W F R} (step : NewLiveMutationStep F)
      → Log s [] t
      → Adds s [] (begin_step fl gateway owner step t)
  unfolding begin_step
  begin_step-Log step h = changed-nil (λ id. step_begun id step) _ (λ _. refl) h

  take-Log :
      {s t : Session W F R} (tag : Text)
      → Log s [] t
      → Adds {E = LiveError E} s [] (take_previous_write_value tag t)
  unfolding take_previous_write_value
  take-Log tag h = Adds-of _ h refl

  -- A write that the driver answered reached it; one that failed may have been stopped before.
  pub write_audited-Log :
      (run_id : Option ℕ) (tag : Text) (v : TagWrite F) (s : Session W F R)
      → Ends
          (λ _ t. Log s (wrote tag v ∷ []) t)
          (Tried s (wrote tag v))
          (write_audited fl gateway owner run_id tag v s)
  unfolding write_audited record_and_forward
  write_audited-Log run_id tag v s = Ends-keep (ensure_healthy-Log (Log-refl s)) λ _ t h.
      Ends-keep (Adds-of (write_target fl gateway owner v) h refl) λ _ t h.
        Ends-keep {f = record_and_forward fl gateway owner run_id tag v} (take-Log tag h)
          λ previous t h.
            Ends-keep (begin_step-Log _ h)
              λ id t h. Ends-weaken (forward-Log id tag v h) (λ _ _ k. k) (λ _ k. inr k)

  pub persist_restore_intent-Log :
      {s t : Session W F R} (intent : Text)
      → Log s [] t
      → Adds s [] (persist_restore_intent fl gateway owner intent t)
  unfolding persist_restore_intent
  persist_restore_intent-Log intent h =
      Ends-then_with (ensure_healthy-Log h)
        λ _ t h. changed-nil (λ _. intent_set owner.id intent) _ (λ _. refl) h

  pub release-Log :
      {s t : Session W F R} {a : List (Entry F R)}
      → Log s a t
      → Adds s a (release fl gateway owner t)
  unfolding release
  release-Log h =
      Ends-then_with (ensure_healthy-Log h)
        λ _ t h. changed-nil (λ _. owner_released owner.id) _ (λ _. refl) h
