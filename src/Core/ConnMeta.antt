-- ===== src/Core/ConnMeta.antt =====
-- crates/ort-core/src/connmeta.rs: the signed metadata of a connection.
pub mod Binding
use ort.Prelude.{ℕ, ◌≡◌, List, ◌++◌, be_bytes, ascii, map_err}
use ort.Core.Error.{CoreResult, bad_signature}
use ort.Core.Suite.Cipher.{CipherSuite}

abbrev pub client_binding_label : List ℕ
client_binding_label = ascii "ORT-v1 connmeta"

pub record ConnMeta : Type 0 where
  pub src_ip : List ℕ
  pub ts_millis : ℕ
  pub nonce : List ℕ

-- The three `copy_from_slice` fill the 56 bytes of the array.
unfoldable pub canonical : ConnMeta → List ℕ
canonical cm = cm.src_ip ++ (be_bytes 8 cm.ts_millis ++ cm.nonce)

module _ (S : CipherSuite) where
  unfoldable pub client_binding_msg : ConnMeta → List ℕ → List ℕ → List ℕ → List ℕ
  client_binding_msg cm client_pk ciphertext enc_data =
      let ct_hash = S.hash256 ciphertext in
      let ed_hash = S.hash256 enc_data in
      client_binding_label ++ (canonical cm ++ (client_pk ++ (ct_hash ++ ed_hash)))

  unfoldable pub sign_client_binding : S.SigSecret → ConnMeta → List ℕ → List ℕ → List ℕ → List ℕ
  sign_client_binding sk cm client_pk ciphertext enc_data =
      S.sig_sign sk (client_binding_msg cm client_pk ciphertext enc_data)

  unfoldable pub verify_client_binding :
      List ℕ → ConnMeta → List ℕ → List ℕ → List ℕ → CoreResult (Unit {0})
  verify_client_binding client_pk cm ciphertext enc_data sig =
      map_err (λ _. bad_signature)
        (S.sig_verify client_pk (client_binding_msg cm client_pk ciphertext enc_data) sig)
