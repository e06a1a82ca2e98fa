-- ===== src/Core/Handshake/Server.antt =====
-- crates/ort-core/src/handshake/server.rs. The reading of the clock is an argument: each path reads
-- it once.
use ort.Prelude.{ℕ, List, ok, err, and_then, bytes_eq, Option, none, some, if◌then◌else◌}
use ort.Core.Error.{CoreResult, source_ip_mismatch, unsupported_suite, unexpected_message}
use ort.Core.Suite.Ids.{SuiteId, code, from_code}
use ort.Core.Suite.Cipher.{CipherSuite, Blake3}
use ort.Core.Time.{check_window}
use ort.Core.Kdf.{derive_session_keys}
use ort.Core.ConnMeta.{ConnMeta, verify_client_binding}
use ort.Core.Replay.{replay_tag, check_and_insert}
use ort.Core.Pool.{client_to_server}
use ort.Core.Record
use ort.Core.Record.{RecordLayer, open_record, enc_key_hash}
use ort.Core.Handshake.Handler.{Handler, ◌>>=◌, ◌>>◌, lift}
use ort.Proto.Messages.Payload.{KemPayload}
use ort.Proto.Messages.Frames.{Frame, client_hello_one_rtt, client_hello_zero_rtt, client_data}

pub record ServerConfig (S : CipherSuite) : Type 0 where
  pub kem_secret : S.KemSecret
  pub server_pk : List ℕ
  pub certificate : List ℕ
  pub window_ms : ℕ
  pub skew_ms : ℕ

suite_known : ℕ → Option SuiteId → CoreResult (Unit {0})
suite_known suite_id none = err (unsupported_suite suite_id)
suite_known suite_id (some s) = ok tt

unfoldable pub check_suite : ℕ → CoreResult (Unit {0})
unfolding suite_known
check_suite suite_id = suite_known suite_id (from_code suite_id)

unfoldable pub server_hello : (S : CipherSuite) → ServerConfig S → ℕ → Frame
server_hello S cfg now = Frame.server_hello (code S.id) cfg.server_pk cfg.certificate now

-- Step (a) of `process_payload`.
unfoldable pub check_ip : List ℕ → List ℕ → CoreResult (Unit {0})
check_ip src_ip peer_ip = if bytes_eq src_ip peer_ip then ok tt else err source_ip_mismatch

abbrev pub conn_meta : KemPayload → ConnMeta
conn_meta p = record { src_ip = p.src_ip; ts_millis = p.ts_millis; nonce = p.nonce }

module _ (S : CipherSuite) (B : Blake3) where
  pub record ServerEstablished : Type 0 where
    pub record_layer : RecordLayer S B
    pub early_data : List ℕ

  pub data ServerStep : Type 0 where
    -- send the acknowledgement and forward the early data
    zero_rtt : Frame → ServerEstablished → ServerStep
    -- send the hello and await the client's data
    one_rtt : Frame → ServerStep

  -- Step (e): decapsulate, derive the keys, open the early data.
  unfoldable pub establish : ServerConfig S → KemPayload → CoreResult ServerEstablished
  establish cfg payload = and_then (S.kem_decapsulate cfg.kem_secret payload.ciphertext) λ shared.
      let keys = derive_session_keys S shared payload.ciphertext in
      let layer = Record.new S B keys payload.nonce in
      let (opened, layer') = open_record S B client_to_server payload.enc_data layer in
      and_then opened λ early_data. ok (record { record_layer = layer'; early_data = early_data })

  -- The configuration, the client's key, the payload, the observed address, the clock.
  unfoldable pub process_payload :
      ServerConfig S → List ℕ → KemPayload → List ℕ → ℕ → Handler ServerEstablished
  process_payload cfg client_pk payload peer_ip now = do
    lift (check_ip payload.src_ip peer_ip)
    lift (check_window now payload.ts_millis cfg.window_ms cfg.skew_ms)
    lift (
        verify_client_binding S client_pk (conn_meta payload) payload.ciphertext payload.enc_data
          payload.client_sig)
    check_and_insert (replay_tag S payload.nonce payload.enc_data) now
    lift (establish cfg payload)

  unfoldable pub server_on_first : ServerConfig S → Frame → List ℕ → ℕ → Handler ServerStep
  server_on_first cfg (client_hello_one_rtt suite_id client_pk) peer_ip now = do
    lift (check_suite suite_id)
    lift (ok (one_rtt (server_hello S cfg now)))
  server_on_first cfg (client_hello_zero_rtt suite_id client_pk payload) peer_ip now = do
    lift (check_suite suite_id)
    established ← process_payload cfg client_pk payload peer_ip now
    lift (ok (zero_rtt (Frame.server_ack (enc_key_hash S B established.record_layer)) established))
  server_on_first cfg _ peer_ip now = lift (err (unexpected_message "server_on_first"))

  unfoldable pub server_on_client_data :
      ServerConfig S → Frame → List ℕ → ℕ → Handler ServerEstablished
  server_on_client_data cfg (client_data client_pk payload) peer_ip now =
      process_payload cfg client_pk payload peer_ip now
  server_on_client_data cfg _ peer_ip now = lift (err (unexpected_message "server_on_client_data"))
