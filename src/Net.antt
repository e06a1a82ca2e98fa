-- ===== src/Net.antt =====
-- crates/ort-net: the protocol over sockets.
pub mod Error
pub mod Io
pub mod Stream
pub mod Transport
pub mod Cert
pub mod Session
pub mod Forward
pub mod Run
pub mod Tunnel
