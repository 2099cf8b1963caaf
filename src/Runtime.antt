-- ===== src/Runtime.antt =====
-- crates/bhtune-runtime/src/tune: the parts of the live run that judge readings and MV commands.
pub mod Outcome
pub mod Quality
pub mod Actuation
pub mod Timing
pub mod World
pub mod Tracking
pub mod Poll
pub mod Restore
pub mod Ownership
pub mod Writeback
pub mod Request
pub mod Setup
pub mod Revert
