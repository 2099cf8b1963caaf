-- ===== src/Tests/Settings.antt =====
-- The theorems on configurations, ranges, constants, rounding, templates and tags at sample data.
use bhtune.Common.{◌++◌, none, true, ℕ, ◌≡◌, refl, ◌↔◌, ◌⊎◌, false, [], ◌∷◌, some}
use bhtune.Common.Text.{Text, trim, trim_start}
use bhtune.Common.Result.{ok}
use bhtune.Template
use bhtune.Template.{DcsTemplate, TemplateError, parse_catalog}
use bhtune.Template.Laws.{IsUsable, validate_template_iff}
use bhtune.Tags.{rfind, is_blank, derive_tag}
use bhtune.Tags.Derive.{HasNoSeparator, IsKeptPrefix, derive_tag-derive_tag, derive_tag_cases}
use bhtune.Tests.Samples.{ascii, template, pv_tag}

validate_template_iff_example :
    (Template.validate ascii {E = ℕ} template ≡ ok tt) ↔ IsUsable ascii template
validate_template_iff_example = validate_template_iff ascii {E = ℕ} template

sv_clean : (is_blank ascii (b'S' ∷ b'V' ∷ []) ≡ false) × HasNoSeparator (b'S' ∷ b'V' ∷ [])
unfolding trim trim_start rfind
sv_clean = (refl, record { dot = refl; bang = refl; slash = refl })

derive_tag-derive_tag_example :
    (derived : Text) × (derive_tag ascii pv_tag (b'S' ∷ b'V' ∷ []) ≡ some derived)
    × (derive_tag ascii derived (b'M' ∷ []) ≡ derive_tag ascii pv_tag (b'M' ∷ []))
derive_tag-derive_tag_example =
    derive_tag-derive_tag ascii pv_tag (b'S' ∷ b'V' ∷ []) (b'M' ∷ []) sv_clean.0 sv_clean.1

derive_tag_cases_example :
    ((is_blank ascii (b'M' ∷ []) ≡ true) × (derive_tag ascii pv_tag (b'M' ∷ []) ≡ none))
    ⊎ ((is_blank ascii (b'M' ∷ []) ≡ false)
        × ((prefix : Text) × IsKeptPrefix pv_tag prefix
            × (derive_tag ascii pv_tag (b'M' ∷ []) ≡ some (prefix ++ (b'M' ∷ [])))))
derive_tag_cases_example = derive_tag_cases ascii pv_tag (b'M' ∷ [])
