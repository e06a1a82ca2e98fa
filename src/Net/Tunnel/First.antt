-- ===== src/Net/Tunnel/First.antt =====
-- The tunnel of a first contact: the client has no key of the server's, or is forced to 1-RTT, and
-- what its pump sends comes behind the two frames of its handshake.
use ort.Prelude.{
  ℕ, ◌≡◌, ◌≤◌, ◌<◌, refl, sym, ap, ◌∙◌, List, [], ◌++◌, append_assoc, Bool, Option, none, some, ok,
  length, IsBytes, length-append, arith,
}
use ort.Core.Suite.Cipher.{CipherSuite, Blake3, IsCorrect, IsCompact}
use ort.Core.Pool.{client_to_server, server_to_client, flip}
use ort.Core.Replay.{StrikeCache}
use ort.Core.Handshake.Client.{
  ClientConfig, ClientEstablished, client_one_rtt_hello, client_one_rtt_finish,
}
use ort.Core.Handshake.Server.{ServerConfig, server_hello}
use ort.Core.Handshake.Agreement.{one_rtt_agreement}
use ort.Core.Handshake.Honest.{IsHonest, IsFresh}
use ort.Proto.Messages.Frames.{Frame}
use ort.Net.Error.{OrtResult}
use ort.Net.Stream.{Stream, IsReliable}
use ort.Net.Cert.{X509, ServerVerifier, verify}
use ort.Net.Session.{Socket, connected, client, server, client_open, send_dir, recv_dir}
use ort.Net.Session.Wire.{IsSendable, on_wire}
use ort.Net.Session.Handshakes.First.{open_one_rtt-sent, server_accept-one_rtt}
use ort.Net.Forward.Joined.{forward_up-extends, forward_up-forward_down}
use ort.Net.Forward.Shared.{Use, scheduled}
use ort.Net.Forward.Halves.{forward_up, client_up, client_down, server_up, server_down}

module _ (S : CipherSuite) (B : Blake3) (I : Stream) (X : X509) (correct : IsCorrect S)
    (compact : IsCompact S) (c : IsReliable I) (ccfg : ClientConfig S) (scfg : ServerConfig S)
    (ts now : ℕ) (honest : IsHonest S B ccfg scfg ts now) (src_ip r nonce early_data : List ℕ)
    (verifier : ServerVerifier) (cert_now : ℕ) (strike : StrikeCache)
    (strike_others : StrikeCache → StrikeCache) (client_socket server_socket : Socket I)
    (frame : Frame) (est : ClientEstablished S B) (now1 : ℕ) (force_1rtt : Bool)
    (built : client_one_rtt_finish S B ccfg scfg.server_pk src_ip ts r nonce early_data
      ≡ ok (frame, est))
    (trusted : verify X verifier cert_now scfg.server_pk scfg.certificate ≡ ok tt)
    (hello_sendable : IsSendable (client_one_rtt_hello S ccfg))
    (answer_sendable : IsSendable (server_hello S scfg now1)) (sendable : IsSendable frame)
    (fresh : IsFresh S frame now (strike_others strike)) where
  -- The client's task without a pin, and the server's, as functions of what the other pump of each
  -- does to its record layer, of the fuel and of the plain ends.
  abbrev pub client_sends :
      (ℕ → List Use) → ℕ → I.Reader → I.Writer → OrtResult (Option (Unit {0})) × I.Writer
  client_sends uses n pr pw =
      client_up S B I (scheduled S B client_to_server uses) n X ccfg src_ip verifier cert_now ts r
        nonce early_data none force_1rtt client_socket pr pw

  abbrev pub server_delivers :
      (ℕ → List Use) → ℕ → I.Writer → OrtResult (Option (Unit {0})) × I.Writer
  server_delivers uses m target =
      server_down S B I (scheduled S B client_to_server uses) m scfg src_ip now1 now strike_others
        strike server_socket target

  -- First contact, from the handshake to the target, in one direction: over a 1-RTT tunnel the
  -- client's pump to the tunnel and the server's pump from it carry the early data and then what
  -- the application wrote before it closed to the target, whatever the bytes and however many, and
  -- both these pumps end without an error, whatever the other pump of each end does to the record
  -- layer between the rounds. The other pumps of the two tasks are no part of this: it holds as
  -- long as none of them fails, since `try_join!` would end this one too. The ends are honest, the
  -- server sees the client at the address that the client signs, with no translation of addresses
  -- between them, the client has no pinned key, reads the server's hello and accepts the key there,
  -- the frames are within the limits of the format and the data's within the timestamp window, and
  -- its tag is not in the strike cache, which other tasks may have used in between. The server
  -- reads what the client sent over a fresh connection, and no connection fails. The suite is
  -- correct and compact. The fuel is more than the application's bytes, and at least those on the
  -- tunnel.
  pub first_sends-server_delivers :
      (pr : I.Reader) (pw target : I.Writer) (here there : ℕ → List Use) (n m : ℕ) (rest : List ℕ)
      → IsBytes (c.pending pr)
      → c.sent client_socket.writer ≡ []
      → c.pending client_socket.reader ≡ on_wire (server_hello S scfg now1) ++ rest
      → c.pending server_socket.reader ≡ c.sent (client_sends here n pr pw).1
      → length (c.pending pr) < n
      → length (c.pending server_socket.reader) ≤ m
      → ((client_sends here n pr pw).0 ≡ ok (some tt))
        × ((server_delivers there m target).0 ≡ ok (some tt))
        × (c.sent (server_delivers there m target).1
            ≡ c.sent target ++ (early_data ++ c.pending pr))
  unfolding client_up server_down client_open send_dir recv_dir flip
  first_sends-server_delivers pr pw target here there n m rest bytes unused answered wired fuel
        fuel' =
      let hello = on_wire (client_one_rtt_hello S ccfg) in
      let (r1, w, opened, sent, _) =
        open_one_rtt-sent S B I X correct c ccfg scfg ts now honest src_ip r nonce early_data
          verifier cert_now strike strike_others client_socket server_socket frame est now1 rest
          built trusted answer_sendable answered in
      let (_, est', accepts, agrees) =
        one_rtt_agreement S B correct ccfg scfg ts now honest src_ip r nonce early_data
          (strike_others strike) frame est built fresh in
      let conn = connected S B I est.record_layer client (record { reader = r1; writer = w }) in
      let pump = scheduled S B client_to_server here in
      let (chunks, extends) =
        forward_up-extends S B I correct compact c here there conn n pr pw [] bytes fuel in
      let sends : client_sends here n pr pw ≡ forward_up S B I pump n pr pw conn [] =
        rw opened refl in
      let arrives : c.pending server_socket.reader ≡ hello ++ (on_wire frame ++ chunks) =
        wired
        ∙ ap (λ x. c.sent x.1) sends
        ∙ extends
        ∙ ap (λ x. x ++ chunks) (sent ∙ ap (λ x. (x ++ hello) ++ on_wire frame) unused)
        ∙ append_assoc hello (on_wire frame) chunks in
      let (r', w', served, _, left) =
        server_accept-one_rtt S B I X correct c ccfg scfg ts now honest src_ip r nonce early_data
          verifier cert_now strike strike_others client_socket server_socket frame est' now1 chunks
          hello_sendable sendable arrives accepts in
      let conn' = connected S B I est'.record_layer server (record { reader = r'; writer = w' }) in
      let (begins, ends, text) =
        forward_up-forward_down S B I correct compact c here there conn n pr pw [] bytes fuel conn'
          m target est'.early_data refl agrees.same_layer
          (extends ∙ ap (λ x. c.sent w ++ x) (sym left))
          (omega (
            arith,
            ap length arrives,
            length-append hello (on_wire frame ++ chunks),
            length-append (on_wire frame) chunks,
            ap length left,
            fuel',
          )) in
      (
        ap (λ x. x.0) sends ∙ begins,
        rw served ends,
        rw served (text ∙ ap (λ x. c.sent target ++ (x ++ c.pending pr)) agrees.data_read),
      )

  -- The other direction's tasks.
  abbrev pub server_sends :
      (ℕ → List Use) → ℕ → I.Reader → I.Writer → OrtResult (Option (Unit {0})) × I.Writer
  server_sends uses n pr pw =
      server_up S B I (scheduled S B server_to_client uses) n scfg src_ip now1 now strike_others
        strike server_socket pr pw

  abbrev pub client_delivers :
      (ℕ → List Use) → ℕ → I.Writer → OrtResult (Option (Unit {0})) × I.Writer
  client_delivers uses m app =
      client_down S B I (scheduled S B server_to_client uses) m X ccfg src_ip verifier cert_now ts r
        nonce early_data none force_1rtt client_socket app

  -- First contact, from the target to the application: over a 1-RTT tunnel the server's pump to the
  -- tunnel and the client's pump from it carry what the target wrote before it closed to the
  -- application, whatever the bytes and however many, behind the server's hello, and both these
  -- pumps end without an error. The other pumps of the two tasks are no part of this: it holds as
  -- long as none of them fails, since `try_join!` would end this one too. The ends are as in the
  -- other direction: honest, the server sees the client at the address that the client signs, with
  -- no translation of addresses between them, the client without a pinned key accepts the server's,
  -- the frames are within their limits and the tag is not in the strike cache. The server has read
  -- the client's two frames, whatever comes behind them, the client reads what the server sent over
  -- a fresh connection, and no connection fails. The fuel is more than the target's bytes, and at
  -- least those on the tunnel.
  pub server_sends-first_delivers :
      (pr : I.Reader) (pw app : I.Writer) (here there : ℕ → List Use) (n m : ℕ) (rest : List ℕ)
      → IsBytes (c.pending pr)
      → c.pending server_socket.reader
        ≡ on_wire (client_one_rtt_hello S ccfg) ++ (on_wire frame ++ rest)
      → c.sent server_socket.writer ≡ []
      → c.pending client_socket.reader ≡ c.sent (server_sends here n pr pw).1
      → length (c.pending pr) < n
      → length (c.pending client_socket.reader) ≤ m
      → ((server_sends here n pr pw).0 ≡ ok (some tt))
        × ((client_delivers there m app).0 ≡ ok (some tt))
        × (c.sent (client_delivers there m app).1 ≡ c.sent app ++ c.pending pr)
  unfolding client_down server_up client_open send_dir recv_dir flip
  server_sends-first_delivers pr pw app here there n m rest bytes heard silent wired fuel fuel' =
      let hello = on_wire (server_hello S scfg now1) in
      let (_, est', accepts, agrees) =
        one_rtt_agreement S B correct ccfg scfg ts now honest src_ip r nonce early_data
          (strike_others strike) frame est built fresh in
      let (r', w', served, answered, _) =
        server_accept-one_rtt S B I X correct c ccfg scfg ts now honest src_ip r nonce early_data
          verifier cert_now strike strike_others client_socket server_socket frame est' now1 rest
          hello_sendable sendable heard accepts in
      let conn = connected S B I est'.record_layer server (record { reader = r'; writer = w' }) in
      let pump = scheduled S B server_to_client here in
      let (chunks, extends) =
        forward_up-extends S B I correct compact c here there conn n pr pw est'.early_data bytes
          fuel in
      let sends : server_sends here n pr pw ≡ forward_up S B I pump n pr pw conn est'.early_data =
        rw served refl in
      let arrives : c.pending client_socket.reader ≡ hello ++ chunks =
        wired
        ∙ ap (λ x. c.sent x.1) sends
        ∙ extends
        ∙ ap (λ x. x ++ chunks) (answered ∙ ap (λ x. x ++ hello) silent) in
      let (r1, w, opened, _, left) =
        open_one_rtt-sent S B I X correct c ccfg scfg ts now honest src_ip r nonce early_data
          verifier cert_now strike strike_others client_socket server_socket frame est now1 chunks
          built trusted answer_sendable arrives in
      let conn' = connected S B I est.record_layer client (record { reader = r1; writer = w }) in
      let (begins, ends, text) =
        forward_up-forward_down S B I correct compact c here there conn n pr pw est'.early_data
          bytes fuel conn' m app [] refl (sym agrees.same_layer)
          (extends ∙ ap (λ x. c.sent w' ++ x) (sym left))
          (omega (arith, ap length arrives, length-append hello chunks, ap length left, fuel')) in
      (ap (λ x. x.0) sends ∙ begins, rw opened ends, rw opened text)
