-- ===== src/Server.antt =====
-- crates/bhtune-server/src: the registry of the runs that are active, and what a demo accepts.
pub mod ActiveRun
pub mod Demo
