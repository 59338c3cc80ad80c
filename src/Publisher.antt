-- ===== src/Publisher.antt =====
-- rtc/publisher.rs: the frames that wait for the loop that publishes over WebRTC.
pub mod Backlog
pub mod Outputs
mod Tests
