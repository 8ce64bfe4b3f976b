-- ===== src/Relay.antt =====
-- relay: the environments of the relay, and what the auto-configuration does to them.
pub mod Environments
pub mod Core
pub mod Actions
pub mod Status
pub mod Startup
pub mod Offline
