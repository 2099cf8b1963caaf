-- ===== src/Mrft.antt =====
-- crates/bhtune-core/src/mrft.rs: the relay-feedback engine. `step` returns the new engine and the
-- actions. An instant is a number of nanoseconds since the earliest `DateTime<Utc>`; sums of
-- instants are not bounded, so the panic of chrono at its last year is not modelled.
pub mod Engine
pub mod Cases
pub mod Frame
pub mod Counting
pub mod Actions
pub mod Accounts
pub mod Clamp
pub mod Timing
pub mod Progress
pub mod Extrema
