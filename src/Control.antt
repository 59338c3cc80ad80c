-- ===== src/Control.antt =====
-- relay/src/publisher_control.rs: the renewable capability of one grouped publisher.
pub mod Handle
pub mod Renewal
pub mod Reachable
pub mod Tests
