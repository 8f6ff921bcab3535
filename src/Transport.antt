-- ===== src/Transport.antt =====
-- python/src/embedded_bridge/transport: byte streams to and from a device.
pub mod Result
pub mod Base
pub mod WebSocket
pub mod Serial
