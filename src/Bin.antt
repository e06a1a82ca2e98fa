-- ===== src/Bin.antt =====
-- The binaries: crates/ort-cli, crates/ortd and crates/ortc.
pub mod Files
pub mod Cli
pub mod Listeners
pub mod Ortd
pub mod Ortc
pub mod Deployed
