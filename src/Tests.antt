-- ===== src/Tests.antt =====
-- Concrete runs of the model, and the theorems at concrete inputs.
mod Toy
mod Wire
mod Replays
mod Records
mod Handshakes
mod Sessions
mod Pumps
mod Tasks
mod Serving
mod Arrays
mod Crates
mod Failures
mod Duplex
mod Resumed
mod Binaries
mod Tunnels
mod Deployments
mod Resumptions
