-- ===== src/Testing.antt =====
-- python/src/embedded_bridge/testing: tests that a device runs on the command of the host.
pub mod Types
pub mod Bench
pub mod Protocol
pub mod Session
pub mod Commands
pub mod Monitor
