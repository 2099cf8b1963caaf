-- ===== src/Runtime/Writeback/Shape.antt =====
-- The log of a loop and of a rollback, in terms of the steps.
use bhtune.Common.{
  ℕ, suc, ◌+◌, ◌≤◌, ◌≡◌, refl, ◌∙◌, ap, sym, List, [], ◌∷◌, ◌++◌, map, take, true, subst, Option,
  none, some, arith,
}
use mathlib.Core.List.{append-nil, append_assoc}
use bhtune.Float.{Floats}
use bhtune.Runtime.Quality.{TagValue}
use bhtune.Runtime.Writeback.{
  PidError, RollbackFailure, Step, Progress, note_confirmed, pid_value_within_tolerance,
}
use bhtune.Runtime.Writeback.Log.{Entry, seen, wrote, row}
use bhtune.Runtime.Writeback.Steps.{
  Reading, target_entry, previous_entry, Loop, through, confirmed, not_sent, not_confirmed, Undo,
  all_tried, undone, undo_not_sent, undo_refused,
}

-- Some of the entries of a list, in their order.
pub data Part {A : Type 0} : List A → List A → Type 0 where
  part_nil : Part [] []
  part_skip : {x : A} {xs ys : List A} → Part xs ys → Part xs (x ∷ ys)
  part_keep : {x : A} {xs ys : List A} → Part xs ys → Part (x ∷ xs) (x ∷ ys)

module _ {F R : Type 0} where
  -- The entries that are no reads.
  abbrev pub without_reads : List (Entry F R) → List (Entry F R)
  without_reads [] = []
  without_reads (seen _ _ ∷ l) = without_reads l
  without_reads (wrote tag v ∷ l) = wrote tag v ∷ without_reads l
  without_reads (row r ∷ l) = row r ∷ without_reads l

  pub without_reads-append :
      (a b : List (Entry F R)) → without_reads (a ++ b) ≡ without_reads a ++ without_reads b
  without_reads-append [] b = refl
  without_reads-append (seen _ _ ∷ a) b = without_reads-append a b
  without_reads-append (wrote tag v ∷ a) b = ap (λ l. wrote tag v ∷ l) (without_reads-append a b)
  without_reads-append (row r ∷ a) b = ap (λ l. row r ∷ l) (without_reads-append a b)

module _ {F R : Type 0} where
  -- The loop sent the first `sent` targets, of which the first `kept` were confirmed: all of what was
  -- sent but at most the last.
  pub record Reached (xs : List (Step F)) (p q : Progress F) (w : List (Entry F R)) : Type 0 where
    pub sent : ℕ
    pub kept : ℕ
    pub log : without_reads w ≡ map target_entry (take sent xs)
    pub targets : q.rollback_targets ≡ p.rollback_targets ++ take kept xs
    pub kept_sent : kept ≤ sent
    pub sent_kept : sent ≤ kept + 1

  Reached-confirmed :
      (x : Step F) (xs : List (Step F)) (p q : Progress F) (w : List (Entry F R)) (a : F)
      (answer : Option TagValue)
      → Reached xs (note_confirmed x a p) q w
      → Reached (x ∷ xs) p q (target_entry x ∷ seen x.tag answer ∷ w)
  Reached-confirmed x xs p q w a answer r = record {
    sent = suc r.sent;
    kept = suc r.kept;
    log = ap (λ l. target_entry x ∷ l) r.log;
    targets = r.targets ∙ append_assoc p.rollback_targets (x ∷ []) (take r.kept xs);
    kept_sent = omega (arith, r.kept_sent);
    sent_kept = omega (arith, r.sent_kept);
  }

  pub Loop-Reached :
      {D E : Type 0} {fl : Floats F D} {reading : Reading F} {xs : List (Step F)} {p q : Progress F}
      {w : List (Entry F R)} {e : Option (PidError F E)}
      → Loop fl reading xs p q w e
      → Reached xs p q w
  Loop-Reached (through {p = p}) = record {
    sent = 0;
    kept = 0;
    log = refl;
    targets = sym (append-nil p.rollback_targets);
    kept_sent = omega arith;
    sent_kept = omega arith;
  }
  Loop-Reached (confirmed {x = x} {xs = xs} {p = p} {q = q} {w = w} a answer h r l) =
      Reached-confirmed x xs p q w a answer (Loop-Reached l)
  Loop-Reached (not_sent {p = p}) = record {
    sent = 0;
    kept = 0;
    log = refl;
    targets = sym (append-nil p.rollback_targets);
    kept_sent = omega arith;
    sent_kept = omega arith;
  }
  Loop-Reached (not_confirmed {p = p} none) = record {
    sent = 1;
    kept = 0;
    log = refl;
    targets = sym (append-nil p.rollback_targets);
    kept_sent = omega arith;
    sent_kept = omega arith;
  }
  Loop-Reached (not_confirmed {p = p} (some _)) = record {
    sent = 1;
    kept = 0;
    log = refl;
    targets = sym (append-nil p.rollback_targets);
    kept_sent = omega arith;
    sent_kept = omega arith;
  }

module _ {F E R : Type 0} where
  -- What a rollback wrote is a part of the former values, and all of them if nothing failed.
  pub Undo-Part :
      {xs : List (Step F)} {w : List (Entry F R)} {f : List (RollbackFailure E)}
      → Undo xs w f
      → Part w (map previous_entry xs)
  Undo-Part all_tried = part_nil
  Undo-Part (undone u) = part_keep (Undo-Part u)
  Undo-Part (undo_not_sent u) = part_skip (Undo-Part u)
  Undo-Part (undo_refused u) = part_keep (Undo-Part u)

  pub Undo-quiet :
      {xs : List (Step F)} {w : List (Entry F R)} {f : List (RollbackFailure E)}
      → Undo xs w f
      → without_reads w ≡ w
  Undo-quiet all_tried = refl
  Undo-quiet (undone {x = x} u) = ap (λ l. previous_entry x ∷ l) (Undo-quiet u)
  Undo-quiet (undo_not_sent u) = Undo-quiet u
  Undo-quiet (undo_refused {x = x} u) = ap (λ l. previous_entry x ∷ l) (Undo-quiet u)

  pub Undo-all :
      {xs : List (Step F)} {w : List (Entry F R)} {f : List (RollbackFailure E)}
      → Undo xs w f
      → f ≡ []
      → w ≡ map previous_entry xs
  Undo-all all_tried e = refl
  Undo-all (undone {x = x} u) e = ap (λ l. previous_entry x ∷ l) (Undo-all u e)
  Undo-all (undo_not_sent u) e = cc
  Undo-all (undo_refused u) e = cc

module _ {F D E R : Type 0} {fl : Floats F D} {reading : Reading F} where
  -- A loop without a failure confirms its first step, and ends behind its last.
  pub Loop-first :
      {x : Step F} {xs : List (Step F)} {p q : Progress F} {w : List (Entry F R)}
      {e : Option (PidError F E)}
      → Loop fl reading (x ∷ xs) p q w e
      → e ≡ none
      → (a : F) × (answer : Option TagValue) × (rest : List (Entry F R))
        × (pid_value_within_tolerance fl x.value a ≡ true)
        × (reading x.tag answer ≡ some a)
        × (w ≡ target_entry x ∷ seen x.tag answer ∷ rest)
        × Loop {E = E} fl reading xs (note_confirmed x a p) q rest none
  Loop-first (confirmed {w = w} a answer h r l) e =
      (a, answer, w, h, r, refl, subst (Loop fl reading _ _ _ _) e l)
  Loop-first not_sent e = cc
  Loop-first (not_confirmed _) e = cc

  pub Loop-last :
      {p q : Progress F} {w : List (Entry F R)} {e : Option (PidError F E)}
      → Loop fl reading [] p q w e
      → (q ≡ p) × (w ≡ [])
  Loop-last through = (refl, refl)
