-- ===== src/Receivers.antt =====
-- python/src/embedded_bridge/receivers: the consumers of the messages of a device.
pub mod CrashDetector
pub mod Router
pub mod SleepWake
pub mod EventCapture
pub mod MemoryTracker
