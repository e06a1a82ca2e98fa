-- ===== src/Core/Handshake/Client.antt =====
-- crates/ort-core/src/handshake/client.rs. The random seed `r`, the random nonce and the reading of
-- the clock are arguments: each function draws and reads each of them once.
use ort.Prelude.{ℕ, List, and_then, ok}
use ort.Core.Error.{CoreResult}
use ort.Core.Suite.Ids.{code}
use ort.Core.Suite.Cipher.{CipherSuite, Blake3}
use ort.Core.Kdf.{derive_session_keys}
use ort.Core.ConnMeta.{ConnMeta, sign_client_binding}
use ort.Core.Pool.{client_to_server}
use ort.Core.Record
use ort.Core.Record.{RecordLayer, seal, enc_key_hash}
use ort.Proto.Messages.Payload.{KemPayload}
use ort.Proto.Messages.Frames.{Frame}

pub record ClientConfig (S : CipherSuite) : Type 0 where
  pub sig_secret : S.SigSecret
  pub client_pk : List ℕ

module _ (S : CipherSuite) (B : Blake3) where
  pub record ClientEstablished : Type 0 where
    pub record_layer : RecordLayer S B
    pub expected_ek_hash : List ℕ

  -- The body of `build_payload` after the encapsulation.
  unfoldable pub built :
      ClientConfig S
      → List ℕ
      → ℕ
      → List ℕ
      → List ℕ
      → List ℕ
      → List ℕ
      → KemPayload × ClientEstablished
  built cfg src_ip now nonce early_data ciphertext shared =
      let keys = derive_session_keys S shared ciphertext in
      let layer = Record.new S B keys nonce in
      let expected_ek_hash = enc_key_hash S B layer in
      let (enc_data, layer') = seal S B client_to_server early_data layer in
      let cm : ConnMeta = record { src_ip = src_ip; ts_millis = now; nonce = nonce } in
      let client_sig = sign_client_binding S cfg.sig_secret cm cfg.client_pk ciphertext enc_data in
      (
        record {
          ciphertext = ciphertext;
          src_ip = cm.src_ip;
          ts_millis = cm.ts_millis;
          nonce = cm.nonce;
          client_sig = client_sig;
          enc_data = enc_data;
        },
        record { record_layer = layer'; expected_ek_hash = expected_ek_hash },
      )

  -- The configuration, the server's key, the source address, the clock, the seed, the nonce, the
  -- data.
  unfoldable pub build_payload :
      ClientConfig S
      → List ℕ
      → List ℕ
      → ℕ
      → List ℕ
      → List ℕ
      → List ℕ
      → CoreResult (KemPayload × ClientEstablished)
  unfolding built
  build_payload cfg server_pk src_ip now r nonce early_data =
      and_then (S.kem_encapsulate server_pk r)
        λ (ciphertext, shared). ok (built cfg src_ip now nonce early_data ciphertext shared)

  unfoldable pub client_zero_rtt :
      ClientConfig S
      → List ℕ
      → List ℕ
      → ℕ
      → List ℕ
      → List ℕ
      → List ℕ
      → CoreResult (Frame × ClientEstablished)
  client_zero_rtt cfg server_pk src_ip now r nonce early_data =
      and_then (build_payload cfg server_pk src_ip now r nonce early_data) λ (payload, established).
        ok (Frame.client_hello_zero_rtt (code S.id) cfg.client_pk payload, established)

  unfoldable pub client_one_rtt_finish :
      ClientConfig S
      → List ℕ
      → List ℕ
      → ℕ
      → List ℕ
      → List ℕ
      → List ℕ
      → CoreResult (Frame × ClientEstablished)
  client_one_rtt_finish cfg server_pk src_ip now r nonce early_data =
      and_then (build_payload cfg server_pk src_ip now r nonce early_data)
        λ (payload, established). ok (Frame.client_data cfg.client_pk payload, established)

unfoldable pub client_one_rtt_hello : (S : CipherSuite) → ClientConfig S → Frame
client_one_rtt_hello S cfg = Frame.client_hello_one_rtt (code S.id) cfg.client_pk
