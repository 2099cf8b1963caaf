-- ===== src/Mrft/Counting/Defs.antt =====
-- The invariant's statement.
use bhtune.Common.{
  ℕ, ◌+◌, ◌-◌, ◌*◌, ◌/◌, ◌%◌, ◌≤◌, ◌<◌, ◌≡◌, ◌⊎◌, Bool, length, leb, ◌==◌, if◌then◌else◌,
}
use bhtune.Common.Int.{ℤ, pos, negsuc, ◌*ℤ◌, eqb_ℤ}
use bhtune.Common.Word.{i32_bound}
use bhtune.Float.{Floats}
use bhtune.LoopConfig.{LoopConfig}
use bhtune.Mrft.Engine.{MrftEngine, relay_level}

abbrev pub IsSign : ℤ → Type 0
IsSign s = (s ≡ pos 1) ⊎ (s ≡ negsuc 0)

abbrev pub opposite : ℤ → ℤ
opposite (pos n) = negsuc 0
opposite (negsuc n) = pos 1

-- The sign of the `n`-th switch, if the first one has the sign `init`.
abbrev pub sign_at : ℤ → ℕ → ℤ
sign_at init n = if n % 2 == 1 then init else opposite init

-- The number of switches of a whole test.
abbrev pub total_switches : {F : Type 0} → MrftEngine F → ℕ
total_switches e = e.num_switches_skip + e.num_cycles_count * 2

-- How many switches have been recorded.
abbrev pub recorded : {F : Type 0} → MrftEngine F → ℕ
recorded e = e.counter_all_switches + 1 - e.num_switches_skip

-- Whether a switch of this sign records a peak.
unfoldable pub is_peak : ℤ → ℤ → Bool
unfolding ◌*ℤ◌
is_peak sign action = eqb_ℤ (sign *ℤ action) (pos 1)

abbrev pub is_first_peak : {F : Type 0} → MrftEngine F → Bool
is_first_peak e = is_peak e.mv_sign_init e.action_multiplier

pub record Counts {F D : Type 0} (fl : Floats F D) (e : MrftEngine F) : Type 0 where
  pub action_sign : IsSign e.action_multiplier
  pub skip_odd : e.num_switches_skip % 2 ≡ 1
  pub count_pos : 1 ≤ e.num_cycles_count
  pub total_small : total_switches e + 1 < i32_bound
  pub counter_le : e.counter_all_switches ≤ total_switches e
  pub init_sign : 0 < e.counter_all_switches → IsSign e.mv_sign_init
  pub at_level :
      0 < e.counter_all_switches
      → e.counter_all_switches < total_switches e
      → e.mv_value_current ≡ relay_level fl e (sign_at e.mv_sign_init e.counter_all_switches)
  pub times_length : length e.switch_times ≡ recorded e
  pub peaks_length :
      length e.peaks ≡ (if is_first_peak e then (recorded e + 1) / 2 else recorded e / 2)
  pub troughs_length :
      length e.troughs ≡ (if is_first_peak e then recorded e / 2 else (recorded e + 1) / 2)

-- The flag says exactly that the counter has reached its end.
abbrev pub Settled : {F : Type 0} → MrftEngine F → Type 0
Settled e = e.completed ≡ leb (total_switches e) e.counter_all_switches

abbrev pub Inv : {F D : Type 0} → Floats F D → MrftEngine F → Type 0
Inv fl e = Counts fl e × Settled e

-- At least one cycle is counted, and the number of switches of the test fits an `i32`.
abbrev pub IsCountable : {F : Type 0} → LoopConfig F → Type 0
IsCountable c =
    (1 ≤ c.num_cycles_count) × (c.num_cycles_skip * 2 + c.num_cycles_count * 2 + 2 < i32_bound)
