-- ===== src/Configuration.antt =====
-- relay/src/configuration.rs: the typed route configuration, with `validate_bus` of
-- relay/src/frame_publisher.rs and `checked_proxy` of relay/src/rtc/proxy.rs.
-- URLs, JSON and secrets are code of other crates: `Api` holds what is used of them.
pub mod Types
pub mod IceServers
pub mod Validation
pub mod Builders
pub mod Origins
pub mod Names
pub mod Validated
pub mod Wire
pub mod RoundTrip
pub mod Tests
