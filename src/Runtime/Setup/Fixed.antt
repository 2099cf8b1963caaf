-- ===== src/Runtime/Setup/Fixed.antt =====
-- The values that a request fixes.
use bhtune.Common.{◌≡◌, refl, ap, sym, subst, Option, none, some}
use bhtune.Common.Text.{Chars}
use bhtune.Common.Result.{ok, ok_injective}
use bhtune.Template.{DcsTemplate}
use bhtune.Tags.{TagOrValue, value, LoopTags, derive_from_pv_tag}
use bhtune.Runtime.Timing.{DriverKind, simulator, opcda}
use bhtune.Runtime.Request.{TuneRequest}
use bhtune.Process.{ControllerDirection}
use bhtune.Runtime.Setup.{
  required_tags, fixed_tags, overridden, fixed_if_given, build_tags_for, build_loop_tags,
}

-- What is requested stands in the tag's place as that value.
abbrev pub IsFixed : {A : Type 0} → Option A → TagOrValue A → Type 0
IsFixed none target = Unit
IsFixed (some v) target = target ≡ value v

fixed_if_given-IsFixed :
    {A : Type 0} (requested : Option A) (target : TagOrValue A)
    → IsFixed requested (fixed_if_given requested target)
fixed_if_given-IsFixed none target = tt
fixed_if_given-IsFixed (some v) target = refl

-- The four ends of the ranges and the direction.
abbrev pub AllFixed : {V F : Type 0} → TuneRequest V F → LoopTags F → Type 0
AllFixed args tags =
    IsFixed args.pv_range_high tags.upper_pv_range
    × IsFixed args.pv_range_low tags.lower_pv_range
    × IsFixed args.mv_range_high tags.upper_mv_range
    × IsFixed args.mv_range_low tags.lower_mv_range
    × IsFixed args.direction tags.controller_direction

module _ {F : Type 0} (ch : Chars) where
  required_tags-IsFixed :
      (ph pl mh ml : Option F) (d : Option ControllerDirection) {tags : LoopTags F}
      → required_tags ch ph pl mh ml d ≡ ok tags
      → IsFixed ph tags.upper_pv_range
        × IsFixed pl tags.lower_pv_range
        × IsFixed mh tags.upper_mv_range
        × IsFixed ml tags.lower_mv_range
        × IsFixed d tags.controller_direction
  required_tags-IsFixed none pl mh ml d h = cc
  required_tags-IsFixed (some _) none mh ml d h = cc
  required_tags-IsFixed (some _) (some _) none ml d h = cc
  required_tags-IsFixed (some _) (some _) (some _) none d h = cc
  required_tags-IsFixed (some _) (some _) (some _) (some _) none h = cc
  required_tags-IsFixed (some a) (some b) (some c) (some e) (some d) h =
      let eq = ok_injective h in
      (
        ap (λ t. t.upper_pv_range) (sym eq),
        ap (λ t. t.lower_pv_range) (sym eq),
        ap (λ t. t.upper_mv_range) (sym eq),
        ap (λ t. t.lower_mv_range) (sym eq),
        ap (λ t. t.controller_direction) (sym eq),
      )

  fixed_tags-AllFixed :
      (args : TuneRequest DriverKind F) (tags : LoopTags F)
      → AllFixed args (fixed_tags ch args tags)
  fixed_tags-AllFixed args tags = (
    fixed_if_given-IsFixed args.pv_range_high tags.upper_pv_range,
    fixed_if_given-IsFixed args.pv_range_low tags.lower_pv_range,
    fixed_if_given-IsFixed args.mv_range_high tags.upper_mv_range,
    fixed_if_given-IsFixed args.mv_range_low tags.lower_mv_range,
    fixed_if_given-IsFixed args.direction tags.controller_direction,
  )

  build_tags_for-AllFixed :
      (d : DriverKind) (args : TuneRequest DriverKind F) (template : DcsTemplate)
      {tags : LoopTags F}
      → build_tags_for ch d args template ≡ ok tags
      → AllFixed args tags
  unfolding build_tags_for
  build_tags_for-AllFixed opcda args template h = subst (AllFixed args) (ok_injective h) (
      fixed_tags-AllFixed args
        (overridden ch args.tag_overrides (derive_from_pv_tag ch args.tagname template)))
  build_tags_for-AllFixed simulator args template h =
      required_tags-IsFixed args.pv_range_high args.pv_range_low args.mv_range_high
        args.mv_range_low args.direction h

  -- Whatever the driver, the template and the overrides are: if a request has tags, then each end of a
  -- range and the direction that the request fixes stand in them as the value that it fixes.
  pub build_loop_tags-AllFixed :
      (args : TuneRequest DriverKind F) (template : DcsTemplate) {tags : LoopTags F}
      → build_loop_tags ch args template ≡ ok tags
      → AllFixed args tags
  unfolding build_loop_tags
  build_loop_tags-AllFixed args template h = build_tags_for-AllFixed args.driver args template h
