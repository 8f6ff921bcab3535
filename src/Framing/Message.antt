-- ===== src/Framing/Message.antt =====
-- python/src/embedded_bridge/framing/message.py: text lines and binary messages in one stream.
pub mod Handler
pub mod Reader
pub mod Writer
