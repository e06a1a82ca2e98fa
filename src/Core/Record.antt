-- ===== src/Core/Record.antt =====
-- crates/ort-core/src/record.rs: the AEAD record layer of a session.
pub mod OneDirection
pub mod Peers
pub mod Tunnel
use ort.Prelude.{ℕ, List, ◌∷◌, ◌++◌, Result, ok, err, be_bytes, ascii}
use ort.Core.Error.{Error, CoreResult}
use ort.Core.Suite.Cipher.{CipherSuite, Blake3}
use ort.Core.Kdf.{SessionKeys}
use ort.Core.Pool
use ort.Core.Pool.{Direction, dir_byte, EntropyPool}

abbrev pub record_aad_label : List ℕ
record_aad_label = ascii "ORT-v1 rec"

-- 10 + 1 + 8 bytes.
unfoldable pub record_aad : Direction → ℕ → List ℕ
record_aad dir counter = record_aad_label ++ (dir_byte dir ∷ be_bytes 8 counter)

module _ (S : CipherSuite) (B : Blake3) where
  pub record RecordLayer : Type 0 where
    pub keys : SessionKeys
    pub pool : EntropyPool B

  unfoldable pub new : SessionKeys → List ℕ → RecordLayer
  new keys connmeta_nonce = record { keys = keys; pool = Pool.new B keys.pool_key connmeta_nonce }

  -- `&mut self` comes back beside the result.
  unfoldable pub seal : Direction → List ℕ → RecordLayer → List ℕ × RecordLayer
  seal dir plaintext l =
      let counter = Pool.counter B dir l.pool in
      let (nonce, pool) = Pool.next_nonce B dir l.pool in
      let aad = record_aad dir counter in
      let ct = S.aead_seal l.keys.enc_key nonce aad plaintext in
      (ct, record l { pool = Pool.absorb B dir ct pool })

  -- After the AEAD answered: `?` returns before the ciphertext is absorbed.
  opened :
      Direction → List ℕ → RecordLayer → CoreResult (List ℕ) → CoreResult (List ℕ) × RecordLayer
  opened dir ciphertext l (ok pt) = (ok pt, record l { pool = Pool.absorb B dir ciphertext l.pool })
  opened dir ciphertext l (err e) = (err e, l)

  -- The counter has advanced also where the record is refused.
  unfoldable pub open_record : Direction → List ℕ → RecordLayer → CoreResult (List ℕ) × RecordLayer
  unfolding opened
  open_record dir ciphertext l =
      let counter = Pool.counter B dir l.pool in
      let (nonce, pool) = Pool.next_nonce B dir l.pool in
      let aad = record_aad dir counter in
      opened dir ciphertext (record l { pool = pool })
        (S.aead_open l.keys.enc_key nonce aad ciphertext)

  unfoldable pub enc_key_hash : RecordLayer → List ℕ
  enc_key_hash l = S.hash512 l.keys.enc_key
