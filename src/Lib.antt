-- ===== src/Lib.antt =====
-- A model of ORT, a post-quantum TCP tunnel (SPEC.md), and theorems about it.
--
-- The program. A client daemon seals what local applications send and a server daemon opens it and
-- forwards it to a backend. crates/ort-proto is the wire format, crates/ort-core the protocol
-- without input and output, crates/ort-net drives the two over sockets, and the binaries start it.
--
-- The files.
--   Prelude       what the other files share: Boolean tests, lists measured by native numbers,
--                 `Result` with `?` as `and_then`, bytes and the big-endian conversions.
--   Proto/Codec   crates/ort-proto/src/codec.rs. `Writer` and `Reader` have a function for each
--                 method; `&mut self` is passed and returned. `Parses` and `Inverse` hold the rules
--                 by which the properties of a sequence of reads follow from those of each read.
--   Proto/Messages  crates/ort-proto/src/messages.rs: `FrameType` (Tags), `KemPayload` (Payload),
--                 `Frame`, `encode` and `decode` (Frames); Layout is the format as a table.
--   Proto/Frame   crates/ort-proto/src/frame.rs: the length prefix and its cap.
--   Core/Suite    crates/ort-core/src/suite: the trait `CipherSuite` as a record of operations (mod.rs),
--                 and the suite V1 (v1.rs) over its crates.
--   Core/Time     crates/ort-core/src/time.rs: the timestamp window and the clocks.
--   Core/Kdf, Core/ConnMeta  the session keys and the signed metadata.
--   Core/Replay   crates/ort-core/src/replay.rs: the strike cache; Log compares it with a log that
--                 forgets nothing.
--   Core/Pool     crates/ort-core/src/pool.rs: the entropy pool with its two directions.
--   Core/Record   crates/ort-core/src/record.rs: sealing and opening records; Tunnel puts two record
--                 layers on the ends of a reliable wire, under any interleaving.
--   Core/Handshake  crates/ort-core/src/handshake: client.rs, server.rs, and how the two agree.
--   Net           crates/ort-net: Error (error.rs), Cert (cert.rs), Transport (transport.rs), Session
--                 (session.rs), Forward (forward.rs) and Run (run.rs). Stream is what they use of a
--                 socket, Io the functions that fail and change a state. Run/Loops has the accept
--                 loops, Run/Served the server's tasks, Forward/Turns both pumps by turns under
--                 `try_join!`, Forward/Whole all of `forward` and of the tasks of both loops from
--                 the handshake on, and Forward/Halves the handshake with one of the two pumps.
--                 Tunnel joins two ends: Tunnel/Both and Tunnel/Resumed the whole tasks of a first
--                 contact and of a later one, Tunnel and Tunnel/First one direction at a time. Forward/Steady is about connections that do
--                 not fail, Forward/Failing and Forward/Cut about those that fail or end early.
--   Bin           the binaries: Cli (crates/ort-cli/src/lib.rs), Ortd (crates/ortd/src/main.rs) and
--                 Ortc (crates/ortc/src/main.rs), each with its `main` in a child. Files is what
--                 they use of the file system, Listeners of the listening sockets, and Deployed is
--                 about all of them together, on a first connection (with Answers) and a later one
--                 (Resumed), one direction at a time.
--   Tests         a toy cipher suite, runs, and the theorems at concrete inputs.
--
-- Conventions. A byte is a natural number, and a vector, a slice or an array of bytes is a list;
-- predicates such as `IsBytes` and `IsFrame` say what the Rust types say. Machine words are natural
-- numbers with their wrap-around written out, as a release build computes them. A function that
-- reads the clock or draws random bytes takes the reading or the bytes. A task that shares state with
-- others under a lock takes what the others do to that state while it does not hold the lock.
--
-- Fuel. Only the pumps of Net/Forward take fuel, which bounds their rounds; a pump answers `none` when
-- it is spent. A byte still to be read on the plain side and one round more is enough for the one, a
-- byte still to be read on the tunnel for the other. The number in an identifier is printed with ten
-- digits at most. All other loops run over a list.
--
-- Parameters. The theorems on the protocol take any cipher suite that keeps the promises of its trait,
-- `IsCorrect` and `IsCompact`; V1 does, if its crates do what `IsDocumented` says: the sizes of FIPS 203
-- and 204, that decoding inverts encoding, and the correctness of honest use. AES-GCM takes any text
-- there; those beyond 64 GiB, which the crate refuses, are left out of account, and where the code
-- would panic on `expect` a value stands. The sockets of the crate `tokio` (`IsReliable`, of a
-- connection that does not fail, and `IsOrdered`, of one where any operation may fail), the crates
-- `x509-parser`, `blake3` and `rcgen` (`IsRcgen`) and the file system (`IsFileSystem`, where no other
-- program writes the files) are parameters too, as are the listening sockets and the parser of the
-- crate `clap`, of which nothing is assumed. Secrecy and unforgeability are not modelled: no theorem
-- speaks of what an adversary can compute.
--
-- Addresses. The theorems on honest ends give the server the address that the client signs. Behind a
-- translation of addresses the server sees another one, and its first check refuses the client.
--
-- Not modelled: that an error of one pump stops the other in the middle of a round; logging; and the
-- erasure of secrets from memory.
pub mod Prelude
pub mod Proto
pub mod Core
pub mod Net
pub mod Bin
mod Tests
