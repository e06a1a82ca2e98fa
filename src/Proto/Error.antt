-- ===== src/Proto/Error.antt =====
-- crates/ort-proto/src/lib.rs: what decoding can fail with.
use ort.Prelude.{ℕ, Result}

pub data ProtoError : Type 0 where
  truncated : ProtoError
  trailing_bytes : ℕ → ProtoError
  unknown_frame_type : ℕ → ProtoError
  frame_too_large : ℕ → ProtoError

abbrev pub ProtoResult : Type 0 → Type 0
ProtoResult = Result ProtoError
