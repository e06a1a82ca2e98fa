-- ===== src/Net/Session/Handshakes.antt =====
-- The handshakes of `client_open` and `server_accept` over a connection that does not fail.
pub mod First
use ort.Prelude.{
  ℕ, ◌≡◌, refl, sym, ap, ◌∙◌, List, [], ◌++◌, append-nil, Bool, false, Option, none, some, ok,
}
use ort.Core.Suite.Cipher.{CipherSuite, Blake3, IsCorrect}
use ort.Core.Replay.{StrikeCache}
use ort.Core.Handshake.Client.{
  ClientConfig, ClientEstablished, client_zero_rtt, client_one_rtt_hello, client_one_rtt_finish,
}
use ort.Core.Handshake.Server.{
  ServerConfig, ServerEstablished, zero_rtt, server_on_first, server_on_client_data, server_hello,
}
use ort.Core.Handshake.Agreement.{zero_rtt_agreement, one_rtt_agreement, server_on_first-hello}
use ort.Core.Handshake.Honest.{IsHonest, IsFresh}
use ort.Proto.Messages.Frames.{Frame, server_ack}
use ort.Net.Error.{OrtError}
use ort.Net.Io.{Io}
use ort.Net.Stream.{Stream, IsReliable}
use ort.Net.Cert.{X509, ServerVerifier, verify}
use ort.Net.Session.{
  Socket, ClientOutcome, ServerOutcome, open_zero_rtt, open_one_rtt, hello_fields, check_pin,
  client_open, answer, server_accept, connected, client, server,
}
use ort.Net.Session.Wire.{IsSendable, on_wire, send-sent, receive-on_wire}

module _ (S : CipherSuite) (B : Blake3) (I : Stream) where
  -- The two ends of a session: the data that the client sent early has arrived, and both ends hold
  -- one record layer.
  pub record Joins (early_data : List ℕ) (client : ClientOutcome S B I)
      (server : ServerOutcome S B I) : Type 0 where
    pub early : server.early_data ≡ early_data
    pub same_layer : server.conn.record_layer ≡ client.conn.record_layer

module _ (S : CipherSuite) (B : Blake3) (I : Stream) (X : X509) (correct : IsCorrect S)
    (c : IsReliable I) (ccfg : ClientConfig S) (scfg : ServerConfig S) (ts now : ℕ)
    (honest : IsHonest S B ccfg scfg ts now) (src_ip r nonce early_data : List ℕ)
    (verifier : ServerVerifier) (cert_now : ℕ) (strike : StrikeCache)
    (others : StrikeCache → StrikeCache) (client_socket server_socket : Socket I) where
  abbrev opens : Option (List ℕ) → Bool → Io OrtError (Socket I) (ClientOutcome S B I)
  opens = client_open S B I X ccfg src_ip verifier cert_now ts r nonce early_data

  -- The client's half: it sends its one frame.
  pub open_zero_rtt-sent :
      (frame : Frame) (est : ClientEstablished S B)
      → client_zero_rtt S B ccfg scfg.server_pk src_ip ts r nonce early_data ≡ ok (frame, est)
      → (w : I.Writer) × (open_zero_rtt S B I X ccfg src_ip verifier cert_now ts r nonce early_data
            scfg.server_pk client_socket
          ≡ (
            ok (record {
              conn = connected S B I est.record_layer client (record client_socket { writer = w });
              expect_ack = some est.expected_ek_hash;
              server_pk = scfg.server_pk;
            }),
            record client_socket { writer = w },
          ))
        × (c.sent w ≡ c.sent client_socket.writer ++ on_wire frame)
  unfolding open_zero_rtt
  open_zero_rtt-sent frame est built =
      let (w, sends, sent) = send-sent I c frame client_socket in (w, rw (built, sends), sent)

  -- The server's half: it reads the frame and sends the acknowledgement.
  pub server_accept-zero_rtt :
      (frame ack : Frame) (est : ServerEstablished S B) (rest : List ℕ)
      → IsSendable frame
      → c.pending server_socket.reader ≡ on_wire frame ++ rest
      → (server_on_first S B scfg frame src_ip now strike).0 ≡ ok (zero_rtt ack est)
      → (r' : I.Reader) × (w : I.Writer) × ((server_accept S B I scfg src_ip now now others
            (server_socket, strike)).0
          ≡ ok (record {
            conn = connected S B I est.record_layer server (record { reader = r'; writer = w });
            early_data = est.early_data;
          }))
        × (c.pending r' ≡ rest)
        × (c.sent w ≡ c.sent server_socket.writer ++ on_wire ack)
  unfolding server_accept answer
  server_accept-zero_rtt frame ack est rest sendable arrives first =
      let (r', got, left) = receive-on_wire I c frame server_socket rest sendable arrives in
      let (w, sends, sent) = send-sent I c ack (record server_socket { reader = r' }) in
      (r', w, rw (got, first, sends), left, sent)

  -- 0-RTT between honest ends over a fresh connection that does not fail, where the server sees the
  -- client at the address that the client signs, with no translation of addresses between them, the
  -- client has the server's key, its frame is within the limits of the format and of the timestamp
  -- window, and its tag is not in the strike cache: both ends succeed, the server has the early
  -- data and the client's record layer, and it sent the acknowledgement that the client expects.
  -- The suite is correct.
  pub client_open-server_accept :
      (frame : Frame) (est : ClientEstablished S B)
      → client_zero_rtt S B ccfg scfg.server_pk src_ip ts r nonce early_data ≡ ok (frame, est)
      → IsSendable frame
      → IsFresh S frame now strike
      → c.sent client_socket.writer ≡ []
      → c.pending server_socket.reader
        ≡ c.sent (opens (some scfg.server_pk) false client_socket).1.writer
      → (client : ClientOutcome S B I) × (server : ServerOutcome S B I) × (ack : List ℕ) × ((opens
            (some scfg.server_pk)
            false
            client_socket).0
          ≡ ok client)
        × ((server_accept S B I scfg src_ip now now others (server_socket, strike)).0 ≡ ok server)
        × Joins S B I early_data client server
        × (client.expect_ack ≡ some ack)
        × (c.sent server.conn.writer ≡ c.sent server_socket.writer ++ on_wire (server_ack ack))
  unfolding client_open
  client_open-server_accept frame est built sendable fresh unused wired =
      let (w, opened, sent) = open_zero_rtt-sent frame est built in
      let arrives : c.pending server_socket.reader ≡ on_wire frame ++ [] =
        wired
        ∙ ap (λ x. c.sent x.1.writer) opened
        ∙ sent
        ∙ ap (λ x. x ++ on_wire frame) unused
        ∙ sym (append-nil (on_wire frame)) in
      let (est', first, agrees) =
        zero_rtt_agreement S B correct ccfg scfg ts now honest src_ip r nonce early_data strike
          frame est built fresh in
      let (r', w', served, _, answered) =
        server_accept-zero_rtt frame _ est' [] sendable arrives first in
      (
        _,
        _,
        est.expected_ek_hash,
        ap (λ x. x.0) opened,
        served,
        record { early = agrees.data_read; same_layer = agrees.same_layer },
        refl,
        answered,
      )
