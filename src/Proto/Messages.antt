-- ===== src/Proto/Messages.antt =====
-- crates/ort-proto/src/messages.rs: the frames and their encoding. The properties are in the
-- children below the definitions.
pub mod Tags
pub mod Payload
pub mod Frames
pub mod Layout
pub mod RoundTrip
pub mod Canonical
