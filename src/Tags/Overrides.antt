-- ===== src/Tags/Overrides.antt =====
-- Overrides of the tags: what validation accepts, and what applying them changes.
use Prim.Native.String.{String}
use bhtune.Common.{◌≡◌, refl, ◌↔◌, true, false, List, [], ◌∷◌, Option, none, some, All, arith}
use bhtune.Common.Text.{Text, Chars}
use bhtune.Common.Result.{ok}
use bhtune.Tags.{
  TagOverrides, TagOrValue, LoopTags, effective, apply_string_override,
  apply_optional_string_override, apply_tag_override, fields, is_missing_or_blank, all_blank,
  overrides_is_empty, has_control, validate_fields, validate, apply_to,
}

module _ (ch : Chars) where
  -- The override of a field holds no control character.
  abbrev pub HasNoControl : String × Option Text → Type 0
  HasNoControl (_, v) = has_control ch v ≡ false

  validate_fields_iff :
      (vs : List (String × Option Text)) → (validate_fields ch vs ≡ ok tt) ↔ All HasNoControl vs
  unfolding validate_fields
  validate_fields_iff [] = (λ _. tt, λ _. refl)
  validate_fields_iff ((field, v) ∷ vs) =
      let (u, u') = validate_fields_iff vs in (λ h. ground (arith, u), λ h. ground (arith, u'))

  -- Overrides are valid exactly when none of the thirteen holds a control character.
  pub validate_overrides_iff :
      (o : TagOverrides) → (validate ch o ≡ ok tt) ↔ All HasNoControl (fields ch o)
  unfolding validate
  validate_overrides_iff o = validate_fields_iff (fields ch o)

  IsBlankField : String × Option Text → Type 0
  IsBlankField (_, v) = is_missing_or_blank ch v ≡ true

  all_blank-All : (vs : List (String × Option Text)) → all_blank ch vs ≡ true → All IsBlankField vs
  unfolding all_blank IsBlankField
  all_blank-All [] h = tt
  all_blank-All ((field, v) ∷ vs) h = ground (arith, all_blank-All vs)

  string_blank :
      (x : Text) (v : Option Text)
      → is_missing_or_blank ch v ≡ true
      → apply_string_override ch x v ≡ x
  unfolding apply_string_override effective
  string_blank x none h = refl
  string_blank x (some s) h = ground arith

  string_twice :
      (x : Text) (v : Option Text)
      → apply_string_override ch (apply_string_override ch x v) v ≡ apply_string_override ch x v
  unfolding apply_string_override effective
  string_twice x none = refl
  string_twice x (some s) = ground arith

  optional_blank :
      (x : Option Text) (v : Option Text)
      → is_missing_or_blank ch v ≡ true
      → apply_optional_string_override ch x v ≡ x
  unfolding apply_optional_string_override effective
  optional_blank x none h = refl
  optional_blank x (some s) h = ground arith

  optional_twice :
      (x : Option Text) (v : Option Text)
      → apply_optional_string_override ch (apply_optional_string_override ch x v) v
        ≡ apply_optional_string_override ch x v
  unfolding apply_optional_string_override effective
  optional_twice x none = refl
  optional_twice x (some s) = ground arith

  tag_blank :
      {A : Type 0} (x : TagOrValue A) (v : Option Text)
      → is_missing_or_blank ch v ≡ true
      → apply_tag_override ch x v ≡ x
  unfolding apply_tag_override effective
  tag_blank x none h = refl
  tag_blank x (some s) h = ground arith

  tag_twice :
      {A : Type 0} (x : TagOrValue A) (v : Option Text)
      → apply_tag_override ch (apply_tag_override ch x v) v ≡ apply_tag_override ch x v
  unfolding apply_tag_override effective
  tag_twice x none = refl
  tag_twice x (some s) = ground arith

  -- Overrides that count as empty change no tag.
  pub apply_to_empty :
      {F : Type 0} (o : TagOverrides) (t : LoopTags F)
      → overrides_is_empty ch o ≡ true
      → apply_to ch o t ≡ t
  unfolding apply_to overrides_is_empty all_blank fields IsBlankField
  apply_to_empty o t h =
      let all = all_blank-All (fields ch o) h in
      λ i. record {
        process_variable = string_blank t.process_variable o.process_variable all.0 i;
        manipulated_variable = string_blank t.manipulated_variable o.manipulated_variable all.1.0 i;
        setpoint_variable = optional_blank t.setpoint_variable o.setpoint_variable all.1.1.0 i;
        controller_mode = optional_blank t.controller_mode o.controller_mode all.1.1.1.0 i;
        mode_attribute = optional_blank t.mode_attribute o.mode_attribute all.1.1.1.1.0 i;
        proportional_constant =
            optional_blank t.proportional_constant o.proportional_constant all.1.1.1.1.1.0 i;
        integral_constant =
            optional_blank t.integral_constant o.integral_constant all.1.1.1.1.1.1.0 i;
        derivative_constant =
            optional_blank t.derivative_constant o.derivative_constant all.1.1.1.1.1.1.1.0 i;
        controller_direction =
            tag_blank t.controller_direction o.controller_direction all.1.1.1.1.1.1.1.1.0 i;
        upper_pv_range = tag_blank t.upper_pv_range o.upper_pv_range all.1.1.1.1.1.1.1.1.1.0 i;
        lower_pv_range = tag_blank t.lower_pv_range o.lower_pv_range all.1.1.1.1.1.1.1.1.1.1.0 i;
        upper_mv_range = tag_blank t.upper_mv_range o.upper_mv_range all.1.1.1.1.1.1.1.1.1.1.1.0 i;
        lower_mv_range =
            tag_blank t.lower_mv_range o.lower_mv_range all.1.1.1.1.1.1.1.1.1.1.1.1.0 i;
      }

  -- Applying the same overrides again changes nothing more.
  pub apply_to_twice :
      {F : Type 0} (o : TagOverrides) (t : LoopTags F)
      → apply_to ch o (apply_to ch o t) ≡ apply_to ch o t
  unfolding apply_to
  apply_to_twice o t = λ i. record {
    process_variable = string_twice t.process_variable o.process_variable i;
    manipulated_variable = string_twice t.manipulated_variable o.manipulated_variable i;
    setpoint_variable = optional_twice t.setpoint_variable o.setpoint_variable i;
    controller_mode = optional_twice t.controller_mode o.controller_mode i;
    mode_attribute = optional_twice t.mode_attribute o.mode_attribute i;
    proportional_constant = optional_twice t.proportional_constant o.proportional_constant i;
    integral_constant = optional_twice t.integral_constant o.integral_constant i;
    derivative_constant = optional_twice t.derivative_constant o.derivative_constant i;
    controller_direction = tag_twice t.controller_direction o.controller_direction i;
    upper_pv_range = tag_twice t.upper_pv_range o.upper_pv_range i;
    lower_pv_range = tag_twice t.lower_pv_range o.lower_pv_range i;
    upper_mv_range = tag_twice t.upper_mv_range o.upper_mv_range i;
    lower_mv_range = tag_twice t.lower_mv_range o.lower_mv_range i;
  }
