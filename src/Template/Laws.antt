-- ===== src/Template/Laws.antt =====
-- What template validation and the catalog parser accept.
use bhtune.Common.{◌≡◌, refl, ◌↔◌, ◌⊎◌, true, false, List, [], ◌∷◌, All, arith}
use bhtune.Common.Text.{Text, Chars, is_empty, trim}
use bhtune.Common.Result.{Result, ok, >>-eq-ok}
use bhtune.PidConfig.Rounding.{HasValidDigits}
use bhtune.Template.{DcsTemplate, is_none, validate, validate_all, parse_catalog}

-- A template that can be used: a name that is not blank, the PV's and the MV's suffix, both mode
-- values if there is a mode suffix, the program value if there is a mode attribute suffix, and valid
-- digits of the rounding.
pub record IsUsable (ch : Chars) (t : DcsTemplate) : Type 0 where
  pub name : is_empty (trim ch.is_whitespace t.name) ≡ false
  pub process_variable : is_empty t.process_variable_suffix ≡ false
  pub manipulated_variable : is_empty t.manipulated_variable_suffix ≡ false
  pub manual : (is_empty t.controller_mode_suffix ≡ true) ⊎ (is_empty t.mode_manual_value ≡ false)
  pub auto : (is_empty t.controller_mode_suffix ≡ true) ⊎ (is_empty t.mode_auto_value ≡ false)
  pub program :
      (is_empty t.mode_attribute_suffix ≡ true) ⊎ (is_none t.mode_attribute_program_value ≡ false)
  pub digits : HasValidDigits t.pid_rounding

module _ (ch : Chars) {E : Type 0} where
  -- `validate` accepts exactly the usable templates.
  pub validate_template_iff : (t : DcsTemplate) → (validate ch {E = E} t ≡ ok tt) ↔ IsUsable ch t
  unfolding validate
  validate_template_iff t = (λ h. ground arith, λ h. ground arith)

  validate_all_iff :
      (ts : List DcsTemplate) → (validate_all ch {E = E} ts ≡ ok tt) ↔ All (IsUsable ch) ts
  unfolding validate_all
  validate_all_iff [] = (λ _. tt, λ _. refl)
  validate_all_iff (t ∷ ts) =
      let (u, u') = validate_template_iff t in
      let (v, v') = validate_all_iff ts in
      (
        λ h.
            let (first, rest) = >>-eq-ok (validate ch t) (validate_all ch ts) h in
            (u first, v rest),
        λ all. rw (u' all.0, v' all.1),
      )

  -- `parse_catalog` returns a list of templates exactly when the TOML reader reads that list and each
  -- of its templates is usable.
  pub parse_catalog_iff :
      (from_str : Text → Result E (List DcsTemplate)) (input : Text) (ts : List DcsTemplate)
      → (parse_catalog ch from_str input ≡ ok ts)
        ↔ ((from_str input ≡ ok ts) × All (IsUsable ch) ts)
  unfolding parse_catalog
  parse_catalog_iff from_str input ts =
      let (v, v') = validate_all_iff ts in (λ h. ground (arith, v), λ h. ground (arith, v'))
