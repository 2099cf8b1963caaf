-- ===== src/Tests.antt =====
-- Tests: the sample data, and each theorem at a concrete input.
pub mod Samples
pub mod Engine
pub mod Settings
pub mod Tuning
pub mod Runtime
pub mod Poll
pub mod Restore
mod Writeback
mod Selected
mod Drivers
mod Server
mod Demo
mod Revert
