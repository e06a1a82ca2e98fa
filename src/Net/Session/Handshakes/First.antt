-- ===== src/Net/Session/Handshakes/First.antt =====
-- The handshake of a first contact, in 1-RTT.
use ort.Prelude.{ℕ, ◌≡◌, refl, sym, ap, ◌∙◌, List, [], ◌++◌, append-nil, Bool, Option, none, ok}
use ort.Core.Suite.Cipher.{CipherSuite, Blake3, IsCorrect}
use ort.Core.Replay.{StrikeCache}
use ort.Core.Handshake.Client.{
  ClientConfig, ClientEstablished, client_one_rtt_hello, client_one_rtt_finish,
}
use ort.Core.Handshake.Server.{ServerConfig, ServerEstablished, server_on_client_data, server_hello}
use ort.Core.Handshake.Agreement.{one_rtt_agreement, server_on_first-hello}
use ort.Core.Handshake.Honest.{IsHonest, IsFresh}
use ort.Proto.Messages.Frames.{Frame}
use ort.Net.Error.{OrtError}
use ort.Net.Io.{Io}
use ort.Net.Stream.{Stream, IsReliable}
use ort.Net.Cert.{X509, ServerVerifier, verify}
use ort.Net.Session.{
  Socket, ClientOutcome, ServerOutcome, open_one_rtt, hello_fields, check_pin, client_open, answer,
  server_accept, connected, client, server,
}
use ort.Net.Session.Wire.{IsSendable, on_wire, send-sent, receive-on_wire}
use ort.Net.Session.Handshakes.{Joins}

module _ (S : CipherSuite) (B : Blake3) (I : Stream) (X : X509) (correct : IsCorrect S)
    (c : IsReliable I) (ccfg : ClientConfig S) (scfg : ServerConfig S) (ts now : ℕ)
    (honest : IsHonest S B ccfg scfg ts now) (src_ip r nonce early_data : List ℕ)
    (verifier : ServerVerifier) (cert_now : ℕ) (strike : StrikeCache)
    (others : StrikeCache → StrikeCache) (client_socket server_socket : Socket I) where
  abbrev opens : Option (List ℕ) → Bool → Io OrtError (Socket I) (ClientOutcome S B I)
  opens = client_open S B I X ccfg src_ip verifier cert_now ts r nonce early_data

  -- The client's half on first contact: it sends the hello, accepts the server's, and sends its data.
  pub open_one_rtt-sent :
      (frame : Frame) (est : ClientEstablished S B) (now1 : ℕ) (rest : List ℕ)
      → client_one_rtt_finish S B ccfg scfg.server_pk src_ip ts r nonce early_data ≡ ok (frame, est)
      → verify X verifier cert_now scfg.server_pk scfg.certificate ≡ ok tt
      → IsSendable (server_hello S scfg now1)
      → c.pending client_socket.reader ≡ on_wire (server_hello S scfg now1) ++ rest
      → (r' : I.Reader) × (w : I.Writer) × (open_one_rtt S B I X ccfg src_ip verifier cert_now ts r
            nonce early_data none client_socket
          ≡ (
            ok (record {
              conn = connected S B I est.record_layer client (record { reader = r'; writer = w });
              expect_ack = none;
              server_pk = scfg.server_pk;
            }),
            record { reader = r'; writer = w },
          ))
        × (c.sent w
            ≡ (c.sent client_socket.writer ++ on_wire (client_one_rtt_hello S ccfg))
              ++ on_wire frame)
        × (c.pending r' ≡ rest)
  unfolding open_one_rtt server_hello hello_fields check_pin
  open_one_rtt-sent frame est now1 rest built trusted sendable arrives =
      let (w1, sends1, sent1) = send-sent I c (client_one_rtt_hello S ccfg) client_socket in
      let s1 : Socket I = record client_socket { writer = w1 } in
      let (r', got, left) =
        receive-on_wire I c (server_hello S scfg now1) s1 rest sendable arrives in
      let (w2, sends2, sent2) = send-sent I c frame (record s1 { reader = r' }) in
      (
        r',
        w2,
        rw (sends1, got, trusted, built, sends2),
        sent2 ∙ ap (λ x. x ++ on_wire frame) sent1,
        left,
      )

  -- The server's half: it answers the hello, and accepts the data that follows.
  pub server_accept-one_rtt :
      (frame : Frame) (est : ServerEstablished S B) (now1 : ℕ) (rest : List ℕ)
      → IsSendable (client_one_rtt_hello S ccfg)
      → IsSendable frame
      → c.pending server_socket.reader
        ≡ on_wire (client_one_rtt_hello S ccfg) ++ (on_wire frame ++ rest)
      → (server_on_client_data S B scfg frame src_ip now (others strike)).0 ≡ ok est
      → (r' : I.Reader) × (w : I.Writer) × ((server_accept S B I scfg src_ip now1 now others
            (server_socket, strike)).0
          ≡ ok (record {
            conn = connected S B I est.record_layer server (record { reader = r'; writer = w });
            early_data = est.early_data;
          }))
        × (c.sent w ≡ c.sent server_socket.writer ++ on_wire (server_hello S scfg now1))
        × (c.pending r' ≡ rest)
  unfolding server_accept answer
  server_accept-one_rtt frame est now1 rest hello_sendable sendable arrives accepts =
      let (r1, got1, left1) =
        receive-on_wire I c (client_one_rtt_hello S ccfg) server_socket (on_wire frame ++ rest)
          hello_sendable arrives in
      let s1 : Socket I = record server_socket { reader = r1 } in
      let (w, sends, sent) = send-sent I c (server_hello S scfg now1) s1 in
      let (r2, got2, left2) =
        receive-on_wire I c frame (record s1 { writer = w }) rest sendable left1 in
      (
        r2,
        w,
        rw (got1, server_on_first-hello S B ccfg scfg src_ip now1 strike, sends, got2, accepts),
        sent,
        left2,
      )

  -- First contact of honest ends over a fresh connection that does not fail, where the client reads
  -- the server's hello and its verifier accepts the key there, the frames are within the limits of
  -- the format and the data's within the timestamp window, and the tag is not in the strike cache,
  -- which other tasks may have used in between: both ends succeed, the server sent that hello and
  -- has the early data and the client's record layer, and the client has the server's key and
  -- awaits no acknowledgement. The suite is correct.
  pub client_open-server_accept_first :
      (frame : Frame) (est : ClientEstablished S B) (now1 : ℕ) (force_1rtt : Bool) (rest : List ℕ)
      → client_one_rtt_finish S B ccfg scfg.server_pk src_ip ts r nonce early_data ≡ ok (frame, est)
      → verify X verifier cert_now scfg.server_pk scfg.certificate ≡ ok tt
      → IsSendable (client_one_rtt_hello S ccfg)
      → IsSendable (server_hello S scfg now1)
      → IsSendable frame
      → IsFresh S frame now (others strike)
      → c.sent client_socket.writer ≡ []
      → c.pending client_socket.reader ≡ on_wire (server_hello S scfg now1) ++ rest
      → c.pending server_socket.reader ≡ c.sent (opens none force_1rtt client_socket).1.writer
      → (client : ClientOutcome S B I) × (server : ServerOutcome S B I) × ((opens none force_1rtt
            client_socket).0
          ≡ ok client)
        × ((server_accept S B I scfg src_ip now1 now others (server_socket, strike)).0 ≡ ok server)
        × Joins S B I early_data client server
        × (client.expect_ack ≡ none)
        × (client.server_pk ≡ scfg.server_pk)
        × (c.sent server.conn.writer
            ≡ c.sent server_socket.writer ++ on_wire (server_hello S scfg now1))
  unfolding client_open
  client_open-server_accept_first frame est now1 force_1rtt rest built trusted s1 s2 s3 fresh unused
        answered wired =
      let (r1, w1, opened, sent, _) =
        open_one_rtt-sent frame est now1 rest built trusted s2 answered in
      let hello = on_wire (client_one_rtt_hello S ccfg) in
      let arrives : c.pending server_socket.reader ≡ hello ++ (on_wire frame ++ []) =
        wired
        ∙ ap (λ x. c.sent x.1.writer) opened
        ∙ sent
        ∙ ap (λ x. (x ++ hello) ++ on_wire frame) unused
        ∙ ap (λ x. hello ++ x) (sym (append-nil (on_wire frame))) in
      let (_, est', accepts, agrees) =
        one_rtt_agreement S B correct ccfg scfg ts now honest src_ip r nonce early_data
          (others strike) frame est built fresh in
      let (r2, w2, served, answers, _) =
        server_accept-one_rtt frame est' now1 [] s1 s3 arrives accepts in
      (
        _,
        _,
        ap (λ x. x.0) opened,
        served,
        record { early = agrees.data_read; same_layer = agrees.same_layer },
        refl,
        refl,
        answers,
      )
