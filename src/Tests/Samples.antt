-- ===== src/Tests/Samples.antt =====
-- A flow loop in thousandths, with samples that drive a whole test, and a decimal printer for it.
use bhtune.Common.{
  ℕ, ◌+◌, ◌*◌, ◌/◌, ◌^◌, ◌==◌, true, leb, List, [], ◌∷◌, none, some, if◌then◌else◌, arith, ◌&&◌,
  ◌||◌,
}
use bhtune.Common.Int.{ℤ, pos, negsuc, ◌*ℤ◌, ◌-ℤ◌, eqb_ℤ, abs_ℕ, pos_part, trunc_div}
use bhtune.Common.Text.{Text, Chars}
use bhtune.Float.{Decimals, fixed, SelfDiffSmall}
use bhtune.Process.{ProcessType, pi}
use bhtune.LoopConfig.{LoopConfig}
use bhtune.PidConfig.{PidRounding, decimal_places, band, reset_time, derivative_time, TimeUnit}
use bhtune.Template.{DcsTemplate}
use bhtune.Tags.{TagOverrides}
use bhtune.Range.{PvRange, MvRange}
use bhtune.Mrft.Engine.{Tick, InitialReadings, seconds}

pub fixed_small : SelfDiffSmall fixed
unfolding fixed ◌-ℤ◌
fixed_small (pos n) = ground arith
fixed_small (negsuc n) = ground arith

abbrev pub config : LoopConfig ℤ
config = record {
  process_type = ProcessType.flow;
  controller_type = pi;
  relay_amp_percent = pos 10000;
  num_cycles_skip = 1;
  num_cycles_count = 1;
  noise_protection_secs = 1;
  mrft_delay_secs = 0;
}

abbrev pub initial : InitialReadings ℤ
initial = record {
  pv_ini = pos 50000;
  mv_ini = pos 45000;
  mv_range_low = pos 0;
  mv_range_high = pos 100000;
}

abbrev pub beta : ℤ
beta = pos 200

abbrev pub sample : ℕ → ℕ → Tick ℤ
sample n pv = record { time = seconds n; pv = pos pv }

abbrev pub ticks : List (Tick ℤ)
ticks =
    sample 1 50000
    ∷ sample 2 56000
    ∷ sample 3 61000
    ∷ sample 4 43000
    ∷ sample 5 60000
    ∷ sample 6 41000
    ∷ sample 7 52000
    ∷ []

-- Samples each of which asks for a switch.
abbrev pub switching : List (Tick ℤ)
switching = sample 1 50000 ∷ sample 2 61000 ∷ sample 3 39000 ∷ sample 4 61000 ∷ sample 5 39000 ∷ []

abbrev pub pv_range : PvRange ℤ
pv_range = record { high = pos 200000; low = pos 0 }

abbrev pub mv_range : MvRange ℤ
mv_range = record { high = pos 100000; low = pos 0 }

-- ASCII's spaces and control characters.
abbrev pub ascii : Chars
ascii = record {
  is_whitespace = λ c. leb 9 c && leb c 13 || c == 32;
  is_control = λ c. leb c 31 || c == 127;
}

abbrev pub one_place : PidRounding
one_place = record { kind = decimal_places; digits = 1 }

abbrev pub template : DcsTemplate
template = record {
  name = b'C' ∷ b'S' ∷ [];
  revert_mode = true;
  proportional_type = band;
  integral_type = reset_time;
  integral_unit = TimeUnit.minutes;
  derivative_type = derivative_time;
  derivative_unit = TimeUnit.seconds;
  pid_rounding = one_place;
  process_variable_suffix = b'P' ∷ b'V' ∷ [];
  manipulated_variable_suffix = b'M' ∷ b'V' ∷ [];
  setpoint_variable_suffix = b'S' ∷ b'V' ∷ [];
  controller_direction_suffix = [];
  controller_mode_suffix = b'M' ∷ [];
  mode_attribute_suffix = [];
  upper_pv_range_suffix = b'S' ∷ b'H' ∷ [];
  lower_pv_range_suffix = b'S' ∷ b'L' ∷ [];
  upper_mv_range_suffix = [];
  lower_mv_range_suffix = [];
  proportional_constant_suffix = b'P' ∷ [];
  integral_constant_suffix = b'I' ∷ [];
  derivative_constant_suffix = b'D' ∷ [];
  mode_manual_value = b'1' ∷ [];
  mode_auto_value = b'2' ∷ [];
  mode_attribute_program_value = none;
  controller_action_direct_value = b'1' ∷ [];
  versions = [];
  description = none;
  source = none;
}

-- `F.PV`.
abbrev pub pv_tag : Text
pv_tag = b'F' ∷ b'.' ∷ b'P' ∷ b'V' ∷ []

-- One override, of the PV tag.
abbrev pub override_pv : Text → TagOverrides
override_pv s = record {
  process_variable = some s;
  manipulated_variable = none;
  setpoint_variable = none;
  controller_mode = none;
  mode_attribute = none;
  proportional_constant = none;
  integral_constant = none;
  derivative_constant = none;
  controller_direction = none;
  upper_pv_range = none;
  lower_pv_range = none;
  upper_mv_range = none;
  lower_mv_range = none;
}

-- Down to a multiple of 1000.
abbrev whole : ℤ → ℤ
whole (pos n) = pos (n / 1000 * 1000)
whole (negsuc n) = negsuc (n / 1000 * 1000 + 999)

-- 10^i in thousandths, which is 0 from i = -4 on.
abbrev power : ℤ → ℤ
power (pos n) = pos (1000 * 10 ^ n)
power (negsuc n) = pos (100 / 10 ^ n)

-- The exponent of a number of thousandths below 10^6, in thousandths.
abbrev exponent : ℕ → ℤ
exponent n =
    if leb 100000 n
    then pos 2000
    else if leb 10000 n
    then pos 1000
    else if leb 1000 n
    then pos 0
    else negsuc 999

unfoldable pub thousandths_printer : Decimals ℤ ℤ
unfolding ◌*ℤ◌
thousandths_printer = record {
  div_wide = λ a b. trunc_div (a *ℤ pos 1000) (abs_ℕ b);
  eq_wide = λ a b. eqb_ℤ a b;
  log10 = λ a. exponent (abs_ℕ a);
  floor = whole;
  round = λ a. whole (pos (pos_part a + 500));
  to_i32 = λ a. trunc_div a 1000;
  pow10 = power;
  show_places = λ a n. pos_part a / 10 ^ (3 + n) ∷ n ∷ [];
  show_exponent = λ a n. pos_part a ∷ n ∷ [];
  show_places_narrow = λ a n. pos_part a ∷ n ∷ [];
  show_narrow = λ a. pos_part a ∷ [];
}
