-- ===== src/Core/Error.antt =====
-- crates/ort-core/src/error.rs. A `&'static str` is a `String`.
use Prim.Native.String.{String}
use ort.Prelude.{ℕ, Result}

pub data Error : Type 0 where
  -- what, expected, got
  invalid_length : String → ℕ → ℕ → Error
  malformed : String → Error
  bad_signature : Error
  aead_failure : Error
  unsupported_suite : ℕ → Error
  stale_timestamp : Error
  source_ip_mismatch : Error
  replayed : Error
  key_confirmation_mismatch : Error
  unexpected_message : String → Error

abbrev pub CoreResult {ℓ} : Type ℓ → Type ℓ
CoreResult = Result Error
