-- ===== src/Core.antt =====
-- The protocol core without input and output, crates/ort-core.
pub mod Error
pub mod Suite
pub mod Time
pub mod Kdf
pub mod ConnMeta
pub mod Replay
pub mod Pool
pub mod Record
pub mod Handshake
