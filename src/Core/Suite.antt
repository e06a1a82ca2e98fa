-- ===== src/Core/Suite.antt =====
-- crates/ort-core/src/suite: the primitives behind an interface.
pub mod Ids
pub mod Cipher
pub mod V1
