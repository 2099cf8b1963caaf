-- ===== src/Tags.antt =====
-- crates/bhtune-core/src/tags.rs: a loop's tags, derived from its PV tag by the template's suffixes,
-- and the overrides of one tune. The separators are ASCII, so the slice by byte index of the source
-- is the same cut as the one by code point here.
pub mod Search
pub mod Derive
pub mod Overrides
use Prim.Native.String.{String}
use bhtune.Common.{
  ℕ, zero, suc, Bool, true, false, ◌&&◌, List, [], ◌∷◌, ◌++◌, Option, none, some, ◌==◌,
  if◌then◌else◌, take,
}
use bhtune.Common.Text.{Text, Chars, is_empty, trim, any}
use bhtune.Common.Result.{Result, ok, err, ◌>>=◌, ◌>>◌, fail_if}
use bhtune.Process.{ControllerDirection}
use bhtune.Template.{DcsTemplate}

pub record TagOverrides : Type 0 where
  pub process_variable : Option Text
  pub manipulated_variable : Option Text
  pub setpoint_variable : Option Text
  pub controller_mode : Option Text
  pub mode_attribute : Option Text
  pub proportional_constant : Option Text
  pub integral_constant : Option Text
  pub derivative_constant : Option Text
  pub controller_direction : Option Text
  pub upper_pv_range : Option Text
  pub lower_pv_range : Option Text
  pub upper_mv_range : Option Text
  pub lower_mv_range : Option Text

pub data TagOverridesError : Type 0 where
  control_character : String → TagOverridesError

pub data TagOrValue (A : Type 0) : Type 0 where
  tag : Text → TagOrValue A
  value : A → TagOrValue A

pub record LoopTags (F : Type 0) : Type 0 where
  pub process_variable : Text
  pub manipulated_variable : Text
  pub setpoint_variable : Option Text
  pub controller_mode : Option Text
  pub mode_attribute : Option Text
  pub upper_pv_range : TagOrValue F
  pub lower_pv_range : TagOrValue F
  pub upper_mv_range : TagOrValue F
  pub lower_mv_range : TagOrValue F
  pub controller_direction : TagOrValue ControllerDirection
  pub proportional_constant : Option Text
  pub integral_constant : Option Text
  pub derivative_constant : Option Text

-- `str::rfind` of a character.
unfoldable pub rfind : ℕ → Text → Option ℕ
rfind c [] = none
rfind c (x ∷ s) = elim (rfind c s) [
  | some i ↦ some (suc i)
  | none ↦ if x == c then some 0 else none
]

abbrev pub or_else {ℓ} : {A : Type ℓ} → Option A → Option A → Option A
or_else (some a) b = some a
or_else none b = b

abbrev pub unwrap_or_default : Option Text → Text
unwrap_or_default none = []
unwrap_or_default (some s) = s

-- Where the tag is cut: at the last `.`, else the last `!`, else the last `/`.
unfoldable pub cut_of : Text → Option ℕ
cut_of pv_tag = or_else (rfind b'.' pv_tag) (or_else (rfind b'!' pv_tag) (rfind b'/' pv_tag))

-- The prefix that is kept, up to the separator and with it.
unfoldable pub kept_prefix : Text → Text
kept_prefix pv_tag = elim (cut_of pv_tag) [ some i ↦ take (suc i) pv_tag | none ↦ [] ]

module _ (ch : Chars) where
  abbrev pub is_blank : Text → Bool
  is_blank s = is_empty (trim ch.is_whitespace s)

  unfoldable pub derive_tag : Text → Text → Option Text
  derive_tag pv_tag suffix = if is_blank suffix then none else some (kept_prefix pv_tag ++ suffix)

  unfoldable pub derive_from_pv_tag : {F : Type 0} → Text → DcsTemplate → LoopTags F
  derive_from_pv_tag pv_tag t =
      let required = λ (suffix : Text). unwrap_or_default (derive_tag pv_tag suffix) in
      record {
        process_variable = required t.process_variable_suffix;
        manipulated_variable = required t.manipulated_variable_suffix;
        setpoint_variable = derive_tag pv_tag t.setpoint_variable_suffix;
        controller_mode = derive_tag pv_tag t.controller_mode_suffix;
        mode_attribute = derive_tag pv_tag t.mode_attribute_suffix;
        upper_pv_range = tag (required t.upper_pv_range_suffix);
        lower_pv_range = tag (required t.lower_pv_range_suffix);
        upper_mv_range = tag (required t.upper_mv_range_suffix);
        lower_mv_range = tag (required t.lower_mv_range_suffix);
        controller_direction = tag (required t.controller_direction_suffix);
        proportional_constant = derive_tag pv_tag t.proportional_constant_suffix;
        integral_constant = derive_tag pv_tag t.integral_constant_suffix;
        derivative_constant = derive_tag pv_tag t.derivative_constant_suffix;
      }

  -- `value.filter(|value| !value.trim().is_empty())`, trimmed.
  unfoldable pub effective : Option Text → Option Text
  effective none = none
  effective (some s) = if is_blank s then none else some (trim ch.is_whitespace s)

  unfoldable pub apply_string_override : Text → Option Text → Text
  unfolding effective
  apply_string_override target v = elim (effective v) [ some s ↦ s | none ↦ target ]

  unfoldable pub apply_optional_string_override : Option Text → Option Text → Option Text
  unfolding effective
  apply_optional_string_override target v = elim (effective v) [ some s ↦ some s | none ↦ target ]

  unfoldable pub apply_tag_override : {A : Type 0} → TagOrValue A → Option Text → TagOrValue A
  unfolding effective
  apply_tag_override target v = elim (effective v) [ some s ↦ tag s | none ↦ target ]

  -- The overrides with their names, in the order of the source.
  unfoldable pub fields : TagOverrides → List (String × Option Text)
  fields o =
      ("process_variable", o.process_variable)
      ∷ ("manipulated_variable", o.manipulated_variable)
      ∷ ("setpoint_variable", o.setpoint_variable)
      ∷ ("controller_mode", o.controller_mode)
      ∷ ("mode_attribute", o.mode_attribute)
      ∷ ("proportional_constant", o.proportional_constant)
      ∷ ("integral_constant", o.integral_constant)
      ∷ ("derivative_constant", o.derivative_constant)
      ∷ ("controller_direction", o.controller_direction)
      ∷ ("upper_pv_range", o.upper_pv_range)
      ∷ ("lower_pv_range", o.lower_pv_range)
      ∷ ("upper_mv_range", o.upper_mv_range)
      ∷ ("lower_mv_range", o.lower_mv_range)
      ∷ []

  abbrev pub is_missing_or_blank : Option Text → Bool
  is_missing_or_blank none = true
  is_missing_or_blank (some s) = is_blank s

  unfoldable pub all_blank : List (String × Option Text) → Bool
  all_blank [] = true
  all_blank ((_, v) ∷ rest) = is_missing_or_blank v && all_blank rest

  unfoldable pub overrides_is_empty : TagOverrides → Bool
  unfolding fields all_blank
  overrides_is_empty o = all_blank (fields o)

  abbrev pub has_control : Option Text → Bool
  has_control none = false
  has_control (some s) = any ch.is_control s

  unfoldable pub validate_fields : List (String × Option Text) → Result TagOverridesError (Unit {0})
  validate_fields [] = ok tt
  validate_fields ((field, v) ∷ rest) =
      fail_if (has_control v) (control_character field) >> validate_fields rest

  unfoldable pub validate : TagOverrides → Result TagOverridesError (Unit {0})
  unfolding fields validate_fields
  validate o = validate_fields (fields o)

  unfoldable pub apply_to : {F : Type 0} → TagOverrides → LoopTags F → LoopTags F
  unfolding apply_string_override apply_optional_string_override apply_tag_override
  apply_to o t = record {
    process_variable = apply_string_override t.process_variable o.process_variable;
    manipulated_variable = apply_string_override t.manipulated_variable o.manipulated_variable;
    setpoint_variable = apply_optional_string_override t.setpoint_variable o.setpoint_variable;
    controller_mode = apply_optional_string_override t.controller_mode o.controller_mode;
    mode_attribute = apply_optional_string_override t.mode_attribute o.mode_attribute;
    proportional_constant =
        apply_optional_string_override t.proportional_constant o.proportional_constant;
    integral_constant = apply_optional_string_override t.integral_constant o.integral_constant;
    derivative_constant =
        apply_optional_string_override t.derivative_constant o.derivative_constant;
    controller_direction = apply_tag_override t.controller_direction o.controller_direction;
    upper_pv_range = apply_tag_override t.upper_pv_range o.upper_pv_range;
    lower_pv_range = apply_tag_override t.lower_pv_range o.lower_pv_range;
    upper_mv_range = apply_tag_override t.upper_mv_range o.upper_mv_range;
    lower_mv_range = apply_tag_override t.lower_mv_range o.lower_mv_range;
  }
