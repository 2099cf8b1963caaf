-- ===== src/Constants.antt =====
-- crates/bhtune-core/src/constants.rs: the tuning constants. The `f32` literals of the tables all
-- have three decimals at most, and stand here as thousandths.
pub mod Laws
use bhtune.Common.{ℕ, List, [], ◌∷◌, map}
use bhtune.Float.{Floats}
use bhtune.Process.{ProcessType, ControllerType, process_index, controller_index, get_or}

pub data ResponseLevel : Type 0 where
  aggressive moderate sluggish : ResponseLevel

unfoldable pub response_index : ResponseLevel → ℕ
response_index aggressive = 0
response_index moderate = 1
response_index sluggish = 2

-- `ResponseLevel::ALL`.
abbrev pub all_levels : List ResponseLevel
all_levels = aggressive ∷ moderate ∷ sluggish ∷ []

pub record TuningConstants (F : Type 0) : Type 0 where
  pub c1 : F
  pub c2 : F
  pub c3 : F
  pub beta : F

abbrev row : ℕ → ℕ → ℕ → List ℕ
row a b c = a ∷ b ∷ c ∷ []

abbrev pub c1_table : List (List (List ℕ))
c1_table =
    (row 500 451 0 ∷ row 333 302 0 ∷ row 250 226 0 ∷ [])
    ∷ (row 500 442 0 ∷ row 333 296 0 ∷ row 250 221 0 ∷ [])
    ∷ (row 333 331 0 ∷ row 222 222 0 ∷ row 167 166 0 ∷ [])
    ∷ (row 333 331 0 ∷ row 222 222 0 ∷ row 167 166 0 ∷ [])
    ∷ (row 500 470 498 ∷ row 250 235 249 ∷ row 167 155 164 ∷ [])
    ∷ (row 333 325 332 ∷ row 222 218 222 ∷ row 167 163 166 ∷ [])
    ∷ []

abbrev pub c2_table : List (List ℕ)
c2_table =
    row 0 331 0 ∷ row 0 302 0 ∷ row 0 1216 0 ∷ row 0 1216 0 ∷ row 0 436 162 ∷ row 0 704 275 ∷ []

abbrev pub c3_table : List (List ℕ)
c3_table = row 0 0 0 ∷ row 0 0 0 ∷ row 0 0 0 ∷ row 0 0 0 ∷ row 0 0 140 ∷ row 0 0 90 ∷ []

abbrev pub beta_table : List (List ℕ)
beta_table =
    row 0 433 0 ∷ row 0 466 0 ∷ row 0 130 0 ∷ row 0 130 0 ∷ row 0 343 102 ∷ row 0 221 13 ∷ []

-- `lookup`, over what reads a number of thousandths.
unfoldable pub lookup_with :
    {F : Type 0} → (ℕ → F) → ProcessType → ControllerType → ResponseLevel → TuningConstants F
unfolding process_index controller_index response_index
lookup_with literal process_type controller_type response_level =
    let p = process_index process_type in
    let c = controller_index controller_type in
    record {
      c1 = literal (get_or (get_or (get_or c1_table p []) (response_index response_level) []) c 0);
      c2 = literal (get_or (get_or c2_table p []) c 0);
      c3 = literal (get_or (get_or c3_table p []) c 0);
      beta = literal (get_or (get_or beta_table p []) c 0);
    }

unfoldable pub lookup :
    {F D : Type 0} → Floats F D → ProcessType → ControllerType → ResponseLevel → TuningConstants F
unfolding lookup_with
lookup fl = lookup_with (λ n. fl.literal n 3)
