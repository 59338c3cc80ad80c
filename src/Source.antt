-- ===== src/Source.antt =====
-- source.rs: a Relay audio bus as a source of Core.
pub mod Configuration
pub mod Reservations
pub mod Driver
mod Tests
