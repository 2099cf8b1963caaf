-- ===== src/Driver/Replay/Order.antt =====
-- The order in which a replayed trace is served.
use bhtune.Common.{
  ℕ, zero, suc, ◌+◌, ◌≤◌, ◌≡◌, refl, inl, inr, List, [], ◌∷◌, push, length, Option, none, some,
  if◌then◌else◌, Bool-cases, Option-cases, arith,
}
use bhtune.Common.Text.{Text, text_eq}
use bhtune.Common.Result.{Result, ok, err}
use bhtune.Driver.{TagValue, TagWrite, DriverError, trace_exhausted}
use bhtune.Driver.Simulator.{number_of}
use bhtune.Driver.Replay.{
  ReplaySample, RecordedWrite, ReplayDriver, get_elem?, new_replay, sample_value, read_recorded,
  write_recorded,
}

-- A call of the driver, for one tag.
pub data Access (F : Type 0) : Type 0 where
  read_access : Text → Access F
  write_access : Text → TagWrite F → Access F

-- The tags of the reads of the PV.
pub pv_reads : {F : Type 0} → Text → List (Access F) → List Text
pv_reads pv [] = []
pv_reads pv (read_access tag ∷ calls) =
    let rest = pv_reads pv calls in if text_eq tag pv then tag ∷ rest else rest
pv_reads pv (write_access _ _ ∷ calls) = pv_reads pv calls

module _ {F : Type 0} (E : Type 0) (show : F → Text) where
  -- The samples in their order, one for each read, and behind the last an error that counts them.
  pub served : ℕ → List Text → List (ReplaySample F) → List (Result (DriverError E) TagValue)
  served n [] ss = []
  served n (tag ∷ tags) [] = err (trace_exhausted n (n + 1)) ∷ served n tags []
  served n (tag ∷ tags) (s ∷ ss) = ok (sample_value show tag s) ∷ served n tags ss

abbrev drop : {A : Type 0} → ℕ → List A → List A
drop zero xs = xs
drop (suc n) [] = []
drop (suc n) (x ∷ xs) = drop n xs

-- At an index up to the length: the end, or an entry and what follows it.
data At {A : Type 0} (xs : List A) (i : ℕ) : Type 0 where
  at_end : get_elem? xs i ≡ none → drop i xs ≡ [] → i ≡ length xs → At xs i
  at_entry :
      (x : A) (rest : List A)
      → get_elem? xs i ≡ some x
      → drop i xs ≡ x ∷ rest
      → drop (suc i) xs ≡ rest
      → i + 1 ≤ length xs
      → At xs i

at : {A : Type 0} (xs : List A) (i : ℕ) → i ≤ length xs → At xs i
at [] zero h = at_end refl refl refl
at [] (suc i) h = absurd (omega arith)
at (x ∷ xs) zero h = at_entry x xs refl refl refl (omega arith)
at (x ∷ xs) (suc i) h = elim (at xs i (omega arith)) [
  | at_end g d e ↦ at_end g d (omega (arith, e))
  | at_entry y rest g d d' l ↦ at_entry y rest g d d' (omega (arith, l))
]

abbrev replay_at :
    {F : Type 0}
    → Text
    → Text
    → List (ReplaySample F)
    → ℕ
    → F
    → List (RecordedWrite F)
    → ReplayDriver F
replay_at pv mv ss i last writes = record {
  pv_tag = pv;
  mv_tag = mv;
  samples = ss;
  state = record { next_index = i; last_mv = last; writes = writes };
}

module _ {F E : Type 0} (show : F → Text) (parse : Text → Option F) where
  -- What the reads of the PV answer, in a sequence of accesses.
  pub pv_answers : List (Access F) → ReplayDriver F → List (Result (DriverError E) TagValue)
  pv_answers [] d = []
  pv_answers (read_access tag ∷ calls) d =
      let (r, d') = read_recorded show parse tag d in
      let rest = pv_answers calls d' in if text_eq tag d.pv_tag then r ∷ rest else rest
  pv_answers (write_access tag v ∷ calls) d =
      pv_answers calls (write_recorded {E = E} show parse tag v d).1

  pv_answers-served :
      (calls : List (Access F)) (pv mv : Text) (ss : List (ReplaySample F)) (i : ℕ) (last : F)
      (writes : List (RecordedWrite F))
      → i ≤ length ss
      → pv_answers calls (replay_at pv mv ss i last writes)
        ≡ served E show (length ss) (pv_reads pv calls) (drop i ss)
  unfolding pv_answers pv_reads served read_recorded write_recorded
  pv_answers-served [] pv mv ss i last writes h = refl
  pv_answers-served (read_access tag ∷ calls) pv mv ss i last writes h =
      elim (Bool-cases (text_eq tag pv)) [
        | inl same ↦ elim (at ss i h) [
          | at_end g d e ↦
              ground (arith, same, g, d, e, pv_answers-served calls pv mv ss i last writes h)
          | at_entry s rest g d d' l ↦
              ground (arith, same, g, d, d', pv_answers-served calls pv mv ss (i + 1) last writes l)
        ]
        | inr other ↦ ground (arith, other, pv_answers-served calls pv mv ss i last writes h)
      ]
  pv_answers-served (write_access tag v ∷ calls) pv mv ss i last writes h =
      elim (Bool-cases (text_eq tag mv)) [
        | inl same ↦ elim (Option-cases (number_of parse v)) [
          | inl bad ↦ rw (same, bad) (pv_answers-served calls pv mv ss i last writes h)
          | inr (n, good) ↦
              rw (same, good)
                (pv_answers-served calls pv mv ss i n
                  (push writes (record { tag = tag; value = n })) h)
        ]
        | inr other ↦ rw other (pv_answers-served calls pv mv ss i last writes h)
      ]

  -- From its start, a replay answers the reads of its PV tag with the recorded samples in their order,
  -- each once and with its time, and every read behind the last one with the same error, which names
  -- the number of the samples and, as the attempt, that number plus one, whatever other tags are read and whatever is written between.
  pub pv_answers-new_replay :
      (calls : List (Access F)) (pv mv : Text) (samples : List (ReplaySample F)) (initial : F)
      → pv_answers calls (new_replay pv mv samples initial)
        ≡ served E show (length samples) (pv_reads pv calls) samples
  unfolding new_replay
  pv_answers-new_replay calls pv mv samples initial =
      pv_answers-served calls pv mv samples 0 initial [] (omega arith)
