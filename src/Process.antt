-- ===== src/Process.antt =====
-- crates/bhtune-core/src/process_type.rs, controller_type.rs, direction.rs: the enums that a loop's
-- configuration is built from. The three default tables are those of constants.rs.
mod Tables
pub use Tables.{get_or}
use bhtune.Common.{ℕ, Bool, true, false, List, [], ◌∷◌, if◌then◌else◌}
use bhtune.Common.Text.{Text, text_eq}
use bhtune.Common.Int.{ℤ, pos, negsuc}

pub data ProcessType : Type 0 where
  flow pressure_line pressure_vessel level temperature_mixing temperature_heat_exchange :
      ProcessType

pub data ControllerType : Type 0 where
  p pi pid : ControllerType

pub data ControllerDirection : Type 0 where
  direct reverse : ControllerDirection

-- `self as usize`.
unfoldable pub process_index : ProcessType → ℕ
process_index flow = 0
process_index pressure_line = 1
process_index pressure_vessel = 2
process_index level = 3
process_index temperature_mixing = 4
process_index temperature_heat_exchange = 5

unfoldable pub all_processes : List ProcessType
all_processes =
    flow ∷ pressure_line ∷ pressure_vessel ∷ level ∷ temperature_mixing ∷ temperature_heat_exchange
    ∷ []

unfoldable pub allows_pid : ProcessType → Bool
allows_pid temperature_mixing = true
allows_pid temperature_heat_exchange = true
allows_pid _ = false

abbrev pub default_cycles_skip_table : List ℕ
default_cycles_skip_table = 1 ∷ 1 ∷ 1 ∷ 1 ∷ 1 ∷ 1 ∷ []

abbrev pub default_cycles_test_table : List ℕ
default_cycles_test_table = 2 ∷ 2 ∷ 1 ∷ 1 ∷ 1 ∷ 1 ∷ []

abbrev pub default_noise_protection_secs_table : List ℕ
default_noise_protection_secs_table = 3 ∷ 3 ∷ 10 ∷ 10 ∷ 20 ∷ 20 ∷ []

unfoldable pub default_cycles_skip : ProcessType → ℕ
unfolding process_index
default_cycles_skip t = get_or default_cycles_skip_table (process_index t) 0

unfoldable pub default_cycles_test : ProcessType → ℕ
unfolding process_index
default_cycles_test t = get_or default_cycles_test_table (process_index t) 0

unfoldable pub default_noise_protection_secs : ProcessType → ℕ
unfolding process_index
default_noise_protection_secs t = get_or default_noise_protection_secs_table (process_index t) 0

unfoldable pub controller_index : ControllerType → ℕ
controller_index p = 0
controller_index pi = 1
controller_index pid = 2

unfoldable pub is_allowed_for : ControllerType → ProcessType → Bool
unfolding allows_pid
is_allowed_for p _ = true
is_allowed_for pi _ = true
is_allowed_for pid t = allows_pid t

unfoldable pub from_raw_tag_value : Text → Text → ControllerDirection
from_raw_tag_value raw_value controller_action_direct_value =
    if text_eq raw_value controller_action_direct_value then direct else reverse

unfoldable pub action_multiplier : ControllerDirection → ℤ
action_multiplier direct = negsuc 0
action_multiplier reverse = pos 1
