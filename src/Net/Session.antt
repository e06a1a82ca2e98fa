-- ===== src/Net/Session.antt =====
-- crates/ort-net/src/session.rs: the handshake over a framed connection. The suite V1 is the
-- parameter `S`, the two halves of the socket `I`, the crate `x509-parser` `X`. What a function draws
-- and reads (random bytes, the clocks) are arguments.
pub mod Wire
pub mod Fits
pub mod Greets
pub mod Trust
pub mod Handshakes
use ort.Prelude.{
  ℕ, List, Bool, true, false, Option, none, some, Result, ok, err, map_err, and_then, ok_or,
  if◌then◌else◌, bytes_eq,
}
use ort.Core.Suite.Cipher.{CipherSuite, Blake3}
use ort.Core.Pool.{Direction, client_to_server, server_to_client, flip}
use ort.Core.Record.{RecordLayer}
use ort.Core.Error
use ort.Core.Replay.{StrikeCache}
use ort.Core.Handshake.Client.{
  ClientConfig, ClientEstablished, client_zero_rtt, client_one_rtt_hello, client_one_rtt_finish,
}
use ort.Core.Handshake.Server.{
  ServerConfig, ServerEstablished, ServerStep, zero_rtt, one_rtt, server_on_first,
  server_on_client_data,
}
use ort.Core.Handshake.Handler.{Handler}
use ort.Proto.Messages.Frames
use ort.Proto.Messages.Frames.{Frame, server_hello, encode, decode}
use ort.Net.Error.{
  OrtError, OrtResult, io, proto, core, unexpected, pin_mismatch, early_close, IoError,
}
use ort.Net.Io.{Io, ◌>>=◌, ◌>>◌, lift}
use ort.Net.Stream.{Stream}
use ort.Net.Transport.{read_frame, write_frame}
use ort.Net.Cert.{X509, ServerVerifier, verify}

pub data Role : Type 0 where
  client server : Role

unfoldable pub send_dir : Role → Direction
send_dir client = client_to_server
send_dir server = server_to_client

unfoldable pub recv_dir : Role → Direction
unfolding send_dir
recv_dir r = flip (send_dir r)

-- The halves of the connection, framed.
pub record Socket (I : Stream) : Type 0 where
  pub reader : I.Reader
  pub writer : I.Writer

module _ (I : Stream) where
  -- `writer.write_frame(&frame.encode()).await?`
  unfoldable pub send : Frame → Io OrtError (Socket I) (Unit {0})
  send frame s =
      let (done, writer) = write_frame I (encode frame) s.writer in
      (map_err io done, record s { writer = writer })

  -- `reader.read_frame().await?.ok_or(OrtError::EarlyClose)?`, then `Frame::decode(&body)?`
  unfoldable pub receive : Io OrtError (Socket I) Frame
  receive s =
      let (got, reader) = read_frame I s.reader in
      (
        and_then (map_err io got)
            λ body. and_then (ok_or early_close body) λ b. map_err proto (decode b),
        record s { reader = reader },
      )

-- The key and the certificate of a hello.
unfoldable pub hello_fields : Frame → OrtResult (List ℕ × List ℕ)
hello_fields (server_hello suite_id server_pk certificate server_ts) = ok (server_pk, certificate)
hello_fields _ = err (unexpected "expected ServerHello")

unfoldable pub check_pin : Option (List ℕ) → List ℕ → OrtResult (Unit {0})
check_pin none server_pk = ok tt
check_pin (some pin) server_pk = if bytes_eq pin server_pk then ok tt else err pin_mismatch

module _ (S : CipherSuite) (B : Blake3) (I : Stream) where
  pub record OrtConn : Type 0 where
    pub reader : I.Reader
    pub writer : I.Writer
    pub record_layer : RecordLayer S B
    pub role : Role

  abbrev pub connected : RecordLayer S B → Role → Socket I → OrtConn
  connected layer role s = record {
    reader = s.reader;
    writer = s.writer;
    record_layer = layer;
    role = role;
  }

  pub record ClientOutcome : Type 0 where
    pub conn : OrtConn
    pub expect_ack : Option (List ℕ)
    pub server_pk : List ℕ

  pub record ServerOutcome : Type 0 where
    pub conn : OrtConn
    pub early_data : List ℕ

  module _ (X : X509) (ccfg : ClientConfig S) (src_ip : List ℕ) (verifier : ServerVerifier)
      (cert_now now : ℕ) (r nonce early_data : List ℕ) where
    unfoldable pub open_zero_rtt : List ℕ → Io OrtError (Socket I) ClientOutcome
    open_zero_rtt spk = do
      (frame, est) ←
          lift (map_err core (client_zero_rtt S B ccfg spk src_ip now r nonce early_data))
      send I frame
      λ s. (
        ok (record {
          conn = connected est.record_layer client s;
          expect_ack = some est.expected_ek_hash;
          server_pk = spk;
        }),
        s,
      )

    unfoldable pub open_one_rtt : Option (List ℕ) → Io OrtError (Socket I) ClientOutcome
    open_one_rtt cached_server_pk = do
      send I (client_one_rtt_hello S ccfg)
      hello ← receive I
      (server_pk, certificate) ← lift (hello_fields hello)
      lift (verify X verifier cert_now server_pk certificate)
      lift (check_pin cached_server_pk server_pk)
      (frame, est) ←
          lift
            (map_err core (client_one_rtt_finish S B ccfg server_pk src_ip now r nonce early_data))
      send I frame
      λ s. (
        ok (record {
          conn = connected est.record_layer client s;
          expect_ack = none;
          server_pk = server_pk;
        }),
        s,
      )

    -- The cached key, and whether to force 1-RTT.
    unfoldable pub client_open : Option (List ℕ) → Bool → Io OrtError (Socket I) ClientOutcome
    client_open (some spk) false = open_zero_rtt spk
    client_open (some spk) true = open_one_rtt (some spk)
    client_open none force_1rtt = open_one_rtt none

  -- A server task's connection and the cache that the tasks share.
  abbrev pub Shared : Type 0
  Shared = Socket I × StrikeCache

  abbrev pub on_socket : {A : Type 0} → Io OrtError (Socket I) A → Io OrtError Shared A
  on_socket m (s, strike) = let (a, s') = m s in (a, (s', strike))

  -- Under the lock of the cache.
  abbrev pub on_strike : {A : Type 0} → Handler A → Io OrtError Shared A
  on_strike m (s, strike) = let (a, strike') = m strike in (map_err core a, (s, strike'))

  abbrev pub accepted : ServerEstablished S B → Io OrtError Shared ServerOutcome
  accepted est w =
      (ok (record { conn = connected est.record_layer server w.0; early_data = est.early_data }), w)

  -- `others` is what the other tasks do to the cache while this one awaits the client's data; the
  -- clock is read once at each message.
  module _ (scfg : ServerConfig S) (peer_ip : List ℕ) (now1 now2 : ℕ)
      (others : StrikeCache → StrikeCache) where
    abbrev pub interleaved : Io OrtError Shared (Unit {0})
    interleaved (s, strike) = (ok tt, (s, others strike))

    unfoldable pub answer : ServerStep S B → Io OrtError Shared ServerOutcome
    answer (zero_rtt ack established) = do on_socket (send I ack); accepted established
    answer (one_rtt hello) = do
      on_socket (send I hello)
      frame2 ← on_socket (receive I)
      interleaved
      established ← on_strike (server_on_client_data S B scfg frame2 peer_ip now2)
      accepted established

    unfoldable pub server_accept : Io OrtError Shared ServerOutcome
    server_accept = do
      frame ← on_socket (receive I)
      step ← on_strike (server_on_first S B scfg frame peer_ip now1)
      answer step
