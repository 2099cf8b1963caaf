-- ===== src/Tuning.antt =====
-- crates/bhtune-core/src/tuning_math.rs: from a completed test to PID parameters.
pub mod Types
pub mod Measure
pub mod Convert
pub mod Checked
pub mod Controller
pub mod Safety
pub mod Targets
