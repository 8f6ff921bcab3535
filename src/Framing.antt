-- ===== src/Framing.antt =====
-- python/src/embedded_bridge/framing: the frame formats and the message protocol.
pub mod Delivery
pub mod Crc16
pub mod Slip
pub mod Hdlc
pub mod Cobs
pub mod Varint
pub mod Message
pub mod Line
