-- ===== src/Runtime/Quality.antt =====
-- tune/quality.rs: which readings a run trusts. The number parser, and what the driver answers, are
-- parameters; a map of tag values is a lookup function.
pub mod Laws
use Prim.Native.String.{String}
use bhtune.Common.{Bool, true, false, not, Option, none, some}
use bhtune.Common.Text.{Text, Chars, trim}
use bhtune.Common.Result.{Result, ok, err, ◌>>=◌, ◌>>◌, fail_if, map_err}
use bhtune.Float.{Floats}
use bhtune.Process.{ControllerDirection, from_raw_tag_value}
use bhtune.Tags.{TagOrValue, tag, value}
use bhtune.Template.{DcsTemplate}
use bhtune.Runtime.Outcome.{Quality, good, uncertain, bad}

pub data SampleQuality : Type 0 where
  good_sample uncertain_sample bad_sample : SampleQuality

pub record TagValue : Type 0 where
  pub value : Text
  pub quality : Quality

-- The errors by their cause; `E` is the driver's error.
pub data ReadError (E : Type 0) : Type 0 where
  driver : E → ReadError E
  missing : Text → ReadError E
  quality_refused : Text → Quality → ReadError E
  not_a_number not_finite : Text → Text → ReadError E
  value_not_finite : ReadError E

unfoldable pub sample_quality_from_driver : Quality → SampleQuality
sample_quality_from_driver good = good_sample
sample_quality_from_driver uncertain = uncertain_sample
sample_quality_from_driver bad = bad_sample

module _ {E : Type 0} where
  unfoldable pub check_quality : Text → Quality → Bool → Result (ReadError E) (Unit {0})
  check_quality t good allow_uncertain = ok tt
  check_quality t uncertain true = ok tt
  check_quality t uncertain false = err (quality_refused t uncertain)
  check_quality t bad allow_uncertain = err (quality_refused t bad)

  -- `ok_or_else`, on a value that the driver or the batch lacks.
  abbrev pub found : {A : Type 0} → Text → Option A → Result (ReadError E) A
  found t none = err (missing t)
  found t (some a) = ok a

  unfoldable pub read_batch_raw : (Text → Option TagValue) → Text → Bool → Result (ReadError E) Text
  unfolding check_quality
  read_batch_raw values t allow_uncertain = do
    v ← found t (values t)
    check_quality t v.quality allow_uncertain
    ok v.value

-- `parse` is `str::parse::<f32>`.
module _ {F D E : Type 0} (fl : Floats F D) (ch : Chars) (parse : Text → Option F) where
  unfoldable pub parse_f32_value : Text → Text → Result (ReadError E) F
  parse_f32_value t raw = elim (parse (trim ch.is_whitespace raw)) [
    | none ↦ err (not_a_number t raw)
    | some v ↦ fail_if (not (fl.is_finite v)) (not_finite t raw) >> ok v
  ]

  unfoldable pub read_batch_f32 : (Text → Option TagValue) → Text → Bool → Result (ReadError E) F
  unfolding read_batch_raw parse_f32_value
  read_batch_f32 values t allow_uncertain = do
    raw ← read_batch_raw values t allow_uncertain
    parse_f32_value t raw

  unfoldable pub read_numeric_from_batch :
      (Text → Option TagValue) → Text → Result (ReadError E) (F × Quality)
  unfolding parse_f32_value
  read_numeric_from_batch values t = do
    v ← found t (values t)
    numeric ← parse_f32_value t v.value
    ok (numeric, v.quality)

  -- `read` answers the read of one tag with its first value.
  module _ (read : Text → Result E (Option TagValue)) where
    unfoldable pub read_raw : Text → Bool → Result (ReadError E) Text
    unfolding check_quality
    read_raw t allow_uncertain = do
      values ← map_err driver (read t)
      v ← found t values
      check_quality t v.quality allow_uncertain
      ok v.value

    unfoldable pub read_f32 : Text → Bool → Result (ReadError E) F
    unfolding read_raw parse_f32_value
    read_f32 t allow_uncertain = do raw ← read_raw t allow_uncertain; parse_f32_value t raw

    unfoldable pub resolve_f32 : TagOrValue F → Bool → Result (ReadError E) F
    unfolding read_f32
    resolve_f32 (value v) allow_uncertain = fail_if (not (fl.is_finite v)) value_not_finite >> ok v
    resolve_f32 (tag t) allow_uncertain = read_f32 t allow_uncertain

    unfoldable pub resolve_direction :
        TagOrValue ControllerDirection
        → DcsTemplate
        → Bool
        → Result (ReadError E) ControllerDirection
    unfolding read_raw
    resolve_direction (value d) template allow_uncertain = ok d
    resolve_direction (tag t) template allow_uncertain = do
      raw ← read_raw t allow_uncertain
      ok (from_raw_tag_value raw template.controller_action_direct_value)

    unfoldable pub resolve_f32_from_batch :
        (Text → Option TagValue) → TagOrValue F → Bool → Result (ReadError E) F
    unfolding resolve_f32 read_batch_f32
    resolve_f32_from_batch values (value v) allow_uncertain = resolve_f32 (value v) allow_uncertain
    resolve_f32_from_batch values (tag t) allow_uncertain = read_batch_f32 values t allow_uncertain

    unfoldable pub resolve_direction_from_batch :
        (Text → Option TagValue)
        → TagOrValue ControllerDirection
        → DcsTemplate
        → Bool
        → Result (ReadError E) ControllerDirection
    unfolding resolve_direction read_batch_raw
    resolve_direction_from_batch values (value d) template allow_uncertain =
        resolve_direction (value d) template allow_uncertain
    resolve_direction_from_batch values (tag t) template allow_uncertain = do
      raw ← read_batch_raw values t allow_uncertain
      ok (from_raw_tag_value raw template.controller_action_direct_value)
