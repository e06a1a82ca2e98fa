-- ===== src/Proto/Codec.antt =====
-- crates/ort-proto/src/codec.rs: the big-endian writer and the bounds-checked reader.
pub mod Writer
pub mod Reader
pub mod Parses
pub mod Inverse
