-- ===== src/Runtime/Quality/Laws.antt =====
-- Which batch values are trusted.
use bhtune.Common.{◌≡◌, refl, ◌↔◌, ◌⊎◌, inl, inr, Bool, true, false, Option, some, arith}
use bhtune.Common.Text.{Text, Chars, trim}
use bhtune.Common.Result.{Result, ok}
use bhtune.Float.{Floats}
use bhtune.Tags.{tag}
use bhtune.Runtime.Outcome.{Quality, good, uncertain, bad}
use bhtune.Runtime.Quality.{
  TagValue, check_quality, read_batch_raw, parse_f32_value, read_batch_f32, resolve_f32_from_batch,
}

-- A quality that a run trusts, under the policy on uncertain readings.
abbrev pub IsTrusted : Quality → Bool → Type 0
IsTrusted q allow_uncertain = (q ≡ good) ⊎ ((q ≡ uncertain) × (allow_uncertain ≡ true))

check_quality_iff :
    {E : Type 0} (t : Text) (q : Quality) (allow : Bool)
    → (check_quality {E = E} t q allow ≡ ok tt) ↔ IsTrusted q allow
unfolding check_quality
check_quality_iff t good allow = (λ _. inl refl, λ _. refl)
check_quality_iff t uncertain true = (λ _. inr (refl, refl), λ _. refl)
check_quality_iff t uncertain false = (λ h. cc, λ h. ground arith)
check_quality_iff t bad allow = (λ h. cc, λ h. ground arith)

module _ {F D E : Type 0} (fl : Floats F D) (ch : Chars) (parse : Text → Option F)
    (read : Text → Result E (Option TagValue)) where
  -- A number is resolved from a tag's batch value exactly when the batch has the tag, its quality is
  -- trusted, and its trimmed text parses to that number, which is finite.
  pub resolve_f32_from_batch_iff :
      (values : Text → Option TagValue) (t : Text) (allow : Bool) (x : F)
      → (resolve_f32_from_batch fl ch parse read values (tag t) allow ≡ ok x) ↔ (
          (v : TagValue) × (values t ≡ some v)
          × IsTrusted v.quality allow
          × (parse (trim ch.is_whitespace v.value) ≡ some x)
          × (fl.is_finite x ≡ true))
  unfolding resolve_f32_from_batch read_batch_f32 read_batch_raw parse_f32_value check_quality
  resolve_f32_from_batch_iff values t allow x = (λ h. ground arith, λ h. ground arith)
