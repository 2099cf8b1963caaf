-- ===== src/Constants/Laws.antt =====
-- The tables of constants: their shape, and which terms a controller type has.
use bhtune.Common.{ℕ, ◌<◌, ◌≡◌, ◌↔◌, ◌&&◌, Bool, true, false, length, arith, []}
use bhtune.Process.{
  ProcessType, flow, ControllerType, p, pi, pid, is_allowed_for, process_index, controller_index,
  get_or, default_cycles_skip_table, default_cycles_test_table, default_noise_protection_secs_table,
}
use bhtune.Constants.{
  ResponseLevel, aggressive, moderate, sluggish, response_index, TuningConstants, lookup_with,
  c1_table, c2_table, c3_table, beta_table,
}

-- The constants in thousandths.
abbrev pub thousandths : ProcessType → ControllerType → ResponseLevel → TuningConstants ℕ
thousandths = lookup_with (λ n. n)

-- Each index that a lookup makes, against the length of its table.
abbrev pub InBounds : ProcessType → ControllerType → ResponseLevel → Type 0
InBounds t c r =
    let i = process_index t in
    (i < length c1_table)
    × (response_index r < length (get_or c1_table i []))
    × (controller_index c < length (get_or (get_or c1_table i []) (response_index r) []))
    × (i < length c2_table)
    × (controller_index c < length (get_or c2_table i []))
    × (i < length c3_table)
    × (controller_index c < length (get_or c3_table i []))
    × (i < length beta_table)
    × (controller_index c < length (get_or beta_table i []))
    × (i < length default_cycles_skip_table)
    × (i < length default_cycles_test_table)
    × (i < length default_noise_protection_secs_table)

-- No index that `lookup` or a default makes is out of its table's bounds.
pub tables-InBounds : (t : ProcessType) (c : ControllerType) (r : ResponseLevel) → InBounds t c r
unfolding process_index controller_index response_index
tables-InBounds flow c r = ground arith
tables-InBounds _ c r = ground arith

abbrev has_integral : ControllerType → Bool
has_integral p = false
has_integral pi = true
has_integral pid = true

abbrev has_derivative : ControllerType → Bool
has_derivative p = false
has_derivative pi = false
has_derivative pid = true

-- The gain constant is positive exactly for the controller types that the process allows; the
-- integral constant and the hysteresis multiplier exactly for those of them that have an integral
-- term, the derivative constant exactly for those that have a derivative term.
pub lookup_terms :
    (t : ProcessType) (c : ControllerType) (r : ResponseLevel)
    → let k = thousandths t c r in
      ((0 < k.c1) ↔ (is_allowed_for c t ≡ true))
      × ((0 < k.c2) ↔ (is_allowed_for c t && has_integral c ≡ true))
      × ((0 < k.beta) ↔ (is_allowed_for c t && has_integral c ≡ true))
      × ((0 < k.c3) ↔ (is_allowed_for c t && has_derivative c ≡ true))
unfolding lookup_with is_allowed_for
lookup_terms flow p aggressive = ground arith
lookup_terms _ _ _ = ground arith

-- For a controller type that the process allows, a more sluggish response has a smaller gain constant,
-- and the other three constants do not depend on the response level.
pub lookup_levels :
    (t : ProcessType) (c : ControllerType) (r : ResponseLevel)
    → is_allowed_for c t ≡ true
    → let a = thousandths t c aggressive in
      let m = thousandths t c moderate in
      let s = thousandths t c sluggish in
      let k = thousandths t c r in
      (m.c1 < a.c1) × (s.c1 < m.c1) × (k.c2 ≡ a.c2) × (k.c3 ≡ a.c3) × (k.beta ≡ a.beta)
unfolding lookup_with is_allowed_for
lookup_levels flow p aggressive h = ground arith
lookup_levels _ _ _ h = ground arith
