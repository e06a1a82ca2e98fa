-- ===== src/Net/Error.antt =====
-- crates/ort-net/src/error.rs, and `std::io::Error` as far as this crate makes and tells apart its
-- kinds.
use Prim.Native.String.{String}
use ort.Prelude.{ℕ, Result}
use ort.Core.Error
use ort.Proto.Error.{ProtoError}

pub data IoError : Type 0 where
  unexpected_eof : IoError
  -- `InvalidData` around the error that a frame's prefix gave
  invalid_frame : ProtoError → IoError
  -- `InvalidData` around the error that a record gave
  invalid_record : Error.Error → IoError
  -- any other kind, by its number
  other : ℕ → IoError

pub data OrtError : Type 0 where
  io : IoError → OrtError
  proto : ProtoError → OrtError
  core : Error.Error → OrtError
  unexpected : String → OrtError
  key_confirmation : OrtError
  pin_mismatch : OrtError
  cert : String → OrtError
  early_close : OrtError

abbrev pub IoResult {ℓ} : Type ℓ → Type ℓ
IoResult = Result IoError

abbrev pub OrtResult {ℓ} : Type ℓ → Type ℓ
OrtResult = Result OrtError
