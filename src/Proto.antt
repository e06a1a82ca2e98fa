-- ===== src/Proto.antt =====
-- The wire format, crates/ort-proto: the codec, the messages and the framing.
pub mod Error
pub mod Codec
pub mod Messages
pub mod Frame
