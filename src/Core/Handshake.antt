-- ===== src/Core/Handshake.antt =====
-- crates/ort-core/src/handshake: the handshake as functions of frames.
pub mod Handler
pub mod Client
pub mod Server
pub mod Honest
pub mod Agreement
pub mod Checks
pub mod Decision
pub mod ReplayWindow
