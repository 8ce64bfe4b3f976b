-- ===== src/AutoConfig.antt =====
-- internal/autoconfig: the auto-configuration stream.
pub mod Receiver
pub mod Stream
