-- ===== src/Core/Kdf.antt =====
-- crates/ort-core/src/kdf.rs: the session keys.
use ort.Prelude.{ℕ, List, ascii}
use ort.Core.Suite.Cipher.{CipherSuite}

abbrev pub info_enc_key : List ℕ
info_enc_key = ascii "ORT-v1 enc-key"

abbrev pub info_pool_key : List ℕ
info_pool_key = ascii "ORT-v1 pool-key"

pub record SessionKeys : Type 0 where
  pub enc_key : List ℕ
  pub pool_key : List ℕ

module _ (S : CipherSuite) where
  unfoldable pub derive_session_keys : List ℕ → List ℕ → SessionKeys
  derive_session_keys k_sk ciphertext =
      let salt = S.hash256 ciphertext in
      record {
        enc_key = S.hkdf k_sk salt info_enc_key 32;
        pool_key = S.hkdf k_sk salt info_pool_key 32;
      }
