-- ===== src/Driver/Replay.antt =====
-- replay.rs: the driver that serves a recorded trace. Parsing the fixture and the texts of messages are
-- left out; the printing and the parsing of an `f32` are parameters.
pub mod Order
use bhtune.Common.{
  ℕ, zero, suc, ◌+◌, ◌-◌, List, [], ◌∷◌, push, length, Option, none, some, if◌then◌else◌,
}
use bhtune.Common.Text.{Text, text_eq}
use bhtune.Common.Result.{Result, ok, err}
use bhtune.Runtime.Outcome.{good}
use bhtune.Driver.{
  Driver, TagValue, TagWrite, WriteOutcome, success, failure, DriverError, invalid_tag_value,
  trace_exhausted, not_supported,
}
use bhtune.Driver.Simulator.{good_value, number_of}

pub record ReplaySample (F : Type 0) : Type 0 where
  pub time : ℕ
  pub pv : F

pub record RecordedWrite (F : Type 0) : Type 0 where
  pub tag : Text
  pub value : F

pub record ReplayState (F : Type 0) : Type 0 where
  pub next_index : ℕ
  pub last_mv : F
  pub writes : List (RecordedWrite F)

pub record ReplayDriver (F : Type 0) : Type 0 where
  pub pv_tag : Text
  pub mv_tag : Text
  pub samples : List (ReplaySample F)
  pub state : ReplayState F

-- `slice::get`.
abbrev pub get_elem? : {A : Type 0} → List A → ℕ → Option A
get_elem? [] i = none
get_elem? (x ∷ xs) zero = some x
get_elem? (x ∷ xs) (suc i) = get_elem? xs i

module _ {F : Type 0} where
  unfoldable pub new_replay : Text → Text → List (ReplaySample F) → F → ReplayDriver F
  new_replay pv_tag mv_tag samples initial_mv = record {
    pv_tag = pv_tag;
    mv_tag = mv_tag;
    samples = samples;
    state = record { next_index = 0; last_mv = initial_mv; writes = [] };
  }

  unfoldable pub remaining : ReplayDriver F → ℕ
  remaining d = length d.samples - d.state.next_index

abbrev pub sample_value : {F : Type 0} → (F → Text) → Text → ReplaySample F → TagValue
sample_value show tag s = record {
  tag = tag;
  value = show s.pv;
  quality = good;
  timestamp = some s.time;
}

-- `show` is `to_string`, `parse` is `str::parse::<f32>`.
module _ {F E : Type 0} (show : F → Text) (parse : Text → Option F) where
  unfoldable pub read_recorded :
      Text → ReplayDriver F → Result (DriverError E) TagValue × ReplayDriver F
  read_recorded tag d =
      if text_eq tag d.pv_tag
      then elim (get_elem? d.samples d.state.next_index) [
        | none ↦ (err (trace_exhausted (length d.samples) (d.state.next_index + 1)), d)
        | some s ↦ (
          ok (sample_value show tag s),
          record d { state = record d.state { next_index = d.state.next_index + 1 } },
        )
      ]
      else if text_eq tag d.mv_tag
      then (ok (good_value tag (show d.state.last_mv)), d)
      else (err (invalid_tag_value tag), d)

  -- `collect` stops at the first error; the samples that were read before it are consumed.
  unfoldable pub read_all_recorded :
      List Text → ReplayDriver F → Result (DriverError E) (List TagValue) × ReplayDriver F
  unfolding read_recorded
  read_all_recorded [] d = (ok [], d)
  read_all_recorded (tag ∷ tags) d =
      let (r, d') = read_recorded tag d in
      let (rs, d'') = read_all_recorded tags d' in
      elim r [ err e ↦ (err e, d') | ok v ↦ (elim rs [ err e ↦ err e | ok vs ↦ ok (v ∷ vs) ], d'') ]

  unfoldable pub write_recorded :
      Text → TagWrite F → ReplayDriver F → Result (DriverError E) WriteOutcome × ReplayDriver F
  write_recorded tag v d =
      if text_eq tag d.mv_tag
      then elim (number_of parse v) [
        | none ↦ (ok (failure []), d)
        | some mv ↦ (
          ok success,
          record d {
            state = record d.state {
              last_mv = mv;
              writes = push d.state.writes (record { tag = tag; value = mv });
            };
          },
        )
      ]
      else (err (invalid_tag_value tag), d)

  abbrev pub replay_driver : {N : Type 0} → Driver (ReplayDriver F) F N E
  replay_driver = record {
    read = λ tags d. read_all_recorded tags d;
    write = λ tag v d. write_recorded tag v d;
    namespace = λ call d. not_supported call d;
  }
