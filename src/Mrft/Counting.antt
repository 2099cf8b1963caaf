-- ===== src/Mrft/Counting.antt =====
-- The counting invariant of the engine: the switches alternate in sign, and the recorded lists and
-- the switch times have the lengths that the switch counter fixes.
mod Defs
mod Switch
mod Step
pub use Defs.{
  IsSign, opposite, sign_at, total_switches, recorded, is_first_peak, Counts, Settled, Inv,
  IsCountable,
}
unfoldable pub use Defs.{is_peak}
pub use Switch.{switch_alternates}
pub use Step.{
  cycles_remaining_lem, is_complete_lem, open-lt, seen-Counts, seen-switch, step-Inv, run-Inv,
  new-Inv,
}
