-- ===== src/Net/Forward/Halves.antt =====
-- One direction of a connection: what `forward` of crates/ort-net/src/forward.rs does up to
-- `try_join!`, and one of its two pumps, on its own or behind the handshake of a task of
-- crates/ort-net/src/run.rs. What the other pump does to the record layer is a parameter; that its
-- error ends this pump is in Turns.
use ort.Prelude.{ℕ, List, Bool, Option, [], none, ok, err, map_err}
use ort.Core.Suite.Cipher.{CipherSuite, Blake3}
use ort.Core.Record.{RecordLayer}
use ort.Core.Replay.{StrikeCache}
use ort.Core.Handshake.Client.{ClientConfig}
use ort.Core.Handshake.Server.{ServerConfig}
use ort.Net.Error.{OrtResult, io}
use ort.Net.Stream.{Stream}
use ort.Net.Cert.{X509, ServerVerifier}
use ort.Net.Session.{
  Socket, OrtConn, ClientOutcome, ServerOutcome, send_dir, recv_dir, client_open, server_accept,
}
use ort.Net.Forward.{Up, Down, up, down, flush_early}

module _ (S : CipherSuite) (B : Blake3) (I : Stream)
    (others : ℕ → RecordLayer S B → RecordLayer S B) (n : ℕ) where
  -- After the early data was written.
  unfoldable pub pumped_up :
      OrtResult (Unit {0}) → I.Reader → OrtConn S B I → OrtResult (Option (Unit {0})) × I.Writer
  pumped_up (err e) pr conn = (err e, conn.writer)
  pumped_up (ok _) pr conn =
      let start : Up S B I = record {
        plain = pr;
        writer = conn.writer;
        layer = conn.record_layer;
      } in
      let (done, u) = up S B I (send_dir conn.role) others n start in (done, u.writer)

  -- The pump from the plain connection, of which `pr` is to be read and `pw` to be written, and what
  -- it wrote to the tunnel.
  unfoldable pub forward_up :
      I.Reader → I.Writer → OrtConn S B I → List ℕ → OrtResult (Option (Unit {0})) × I.Writer
  unfolding pumped_up
  forward_up pr pw conn early_to_plain =
      let (flushed, _) = flush_early S B I early_to_plain pw in
      pumped_up (map_err io flushed) pr conn

  unfoldable pub pumped_down :
      OrtResult (Unit {0})
      → I.Writer
      → OrtConn S B I
      → Option (List ℕ)
      → OrtResult (Option (Unit {0})) × I.Writer
  pumped_down (err e) plain conn expect_ack = (err e, plain)
  pumped_down (ok _) plain conn expect_ack =
      let start : Down S B I = record {
        reader = conn.reader;
        plain = plain;
        layer = conn.record_layer;
      } in
      let (done, s) = down S B I (recv_dir conn.role) expect_ack others n start in (done, s.plain)

  -- The pump to the plain connection, and what it wrote there.
  unfoldable pub forward_down :
      I.Writer → OrtConn S B I → Option (List ℕ) → List ℕ → OrtResult (Option (Unit {0})) × I.Writer
  unfolding pumped_down
  forward_down plain conn expect_ack early_to_plain =
      let (flushed, plain') = flush_early S B I early_to_plain plain in
      pumped_down (map_err io flushed) plain' conn expect_ack

  -- After the handshake of the client.
  client_up_after :
      OrtResult (ClientOutcome S B I)
      → Socket I
      → I.Reader
      → I.Writer
      → OrtResult (Option (Unit {0})) × I.Writer
  client_up_after (err e) s pr pw = (err e, s.writer)
  client_up_after (ok outcome) s pr pw = forward_up pr pw outcome.conn []

  client_down_after :
      OrtResult (ClientOutcome S B I) → I.Writer → OrtResult (Option (Unit {0})) × I.Writer
  client_down_after (err e) app = (err e, app)
  client_down_after (ok outcome) app = forward_down app outcome.conn outcome.expect_ack []

  -- After the handshake of the server.
  server_up_after :
      OrtResult (ServerOutcome S B I)
      → Socket I
      → I.Reader
      → I.Writer
      → OrtResult (Option (Unit {0})) × I.Writer
  server_up_after (err e) s pr pw = (err e, s.writer)
  server_up_after (ok outcome) s pr pw = forward_up pr pw outcome.conn outcome.early_data

  server_down_after :
      OrtResult (ServerOutcome S B I) → I.Writer → OrtResult (Option (Unit {0})) × I.Writer
  server_down_after (err e) target = (err e, target)
  server_down_after (ok outcome) target = forward_down target outcome.conn none outcome.early_data

  module _ (X : X509) (ccfg : ClientConfig S) (src_ip : List ℕ) (verifier : ServerVerifier)
      (cert_now now : ℕ) (r nonce : List ℕ) (early_data : List ℕ) (cached : Option (List ℕ))
      (force_1rtt : Bool) where
    -- In a task of `run_client`, the handshake and then the pump to the tunnel; the task sends no
    -- early data, and here it may be any. `pr` is to be read from the application and `pw` to be
    -- written to it.
    unfoldable pub client_up :
        Socket I → I.Reader → I.Writer → OrtResult (Option (Unit {0})) × I.Writer
    unfolding client_up_after
    client_up socket pr pw =
        let (opened, s) =
          client_open S B I X ccfg src_ip verifier cert_now now r nonce early_data cached force_1rtt
            socket in
        client_up_after opened s pr pw

    -- In the same task, the handshake and then the pump from the tunnel to the application.
    unfoldable pub client_down : Socket I → I.Writer → OrtResult (Option (Unit {0})) × I.Writer
    unfolding client_down_after
    client_down socket app =
        let (opened, s) =
          client_open S B I X ccfg src_ip verifier cert_now now r nonce early_data cached force_1rtt
            socket in
        client_down_after opened app

  module _ (scfg : ServerConfig S) (peer_ip : List ℕ) (now1 now2 : ℕ)
      (strike_others : StrikeCache → StrikeCache) (strike : StrikeCache) where
    -- In a task of `run_server` whose connection to the target was made, the handshake and then the
    -- pump to the tunnel: `pr` is to be read from the target and `pw` to be written to it.
    unfoldable pub server_up :
        Socket I → I.Reader → I.Writer → OrtResult (Option (Unit {0})) × I.Writer
    unfolding server_up_after
    server_up socket pr pw =
        let (accepted, (s, _)) =
          server_accept S B I scfg peer_ip now1 now2 strike_others (socket, strike) in
        server_up_after accepted s pr pw

    -- In the same task, the handshake and then the pump from the tunnel to the target.
    unfoldable pub server_down : Socket I → I.Writer → OrtResult (Option (Unit {0})) × I.Writer
    unfolding server_down_after
    server_down socket target =
        let (accepted, _) =
          server_accept S B I scfg peer_ip now1 now2 strike_others (socket, strike) in
        server_down_after accepted target
