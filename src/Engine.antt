-- ===== src/Engine.antt =====
-- crates/bacnet-sim-engine/src: what runs on every tick of the simulation.
pub mod Alarm
pub mod Cov
pub mod Schedules
