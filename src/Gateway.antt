-- ===== src/Gateway.antt =====
-- relay/src/rtc/gateway.rs: WebSocket publication of Opus packets, with bounded recovery.
pub mod Failures
pub mod Packet
pub mod Ingress
pub mod Triple
pub mod Sending
pub mod Recovery
pub mod Publishing
pub mod Tests
