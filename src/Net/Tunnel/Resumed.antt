-- ===== src/Net/Tunnel/Resumed.antt =====
-- Both directions of a 0-RTT tunnel at once: the task of the client and that of the server, each with
-- both its pumps.
use ort.Prelude.{
  ℕ, ◌≡◌, ◌<◌, refl, sym, ap, ◌∙◌, List, [], ◌++◌, false, some, ok, length, IsBytes, length-append,
  arith,
}
use ort.Core.Suite.Cipher.{CipherSuite, Blake3, IsCorrect, IsCompact}
use ort.Core.Pool.{client_to_server, server_to_client}
use ort.Core.Replay.{StrikeCache}
use ort.Core.Handshake.Client.{ClientConfig, ClientEstablished, client_zero_rtt}
use ort.Core.Handshake.Server.{ServerConfig}
use ort.Core.Handshake.Agreement.{zero_rtt_agreement}
use ort.Core.Handshake.Honest.{IsHonest, IsFresh}
use ort.Proto.Messages.Frames.{Frame, server_ack}
use ort.Net.Stream.{Stream, IsSteady}
use ort.Net.Cert.{X509, ServerVerifier}
use ort.Net.Session.{Socket, connected, client, server, client_open, send_dir}
use ort.Net.Session.Wire.{IsSendable, on_wire}
use ort.Net.Session.Handshakes.{open_zero_rtt-sent, server_accept-zero_rtt}
use ort.Prelude.{none, append_assoc}
use ort.Core.Pool.{dir_pool}
use ort.Net.Forward.{flush_early}
use ort.Net.Forward.Joined.{flush_early-sent}
use ort.Net.Forward.Turns.{Turn, turns}
use ort.Net.Forward.Turns.Answer.{ups, downs}
use ort.Net.Forward.Turns.Both.{turns-extends}
use ort.Net.Forward.Turns.Confirmed.{turns-Confirmed}
use ort.Net.Forward.Whole.{Forwarded, joint, seen, joined, forward, client_session, server_session}

module _ (S : CipherSuite) (B : Blake3) (I : Stream) (X : X509) (correct : IsCorrect S)
    (compact : IsCompact S) (c : IsSteady I) (ccfg : ClientConfig S) (scfg : ServerConfig S)
    (ts_ms now : ℕ) (honest : IsHonest S B ccfg scfg ts_ms now) (src_ip r nonce early_data : List ℕ)
    (verifier : ServerVerifier) (cert_now : ℕ) (strike : StrikeCache)
    (strike_others : StrikeCache → StrikeCache) (client_socket server_socket : Socket I)
    (frame : Frame) (est : ClientEstablished S B)
    (built : client_zero_rtt S B ccfg scfg.server_pk src_ip ts_ms r nonce early_data
      ≡ ok (frame, est))
    (sendable : IsSendable frame) (fresh : IsFresh S frame now strike) where
  abbrev pub client_does : List Turn → I.Reader → I.Writer → Forwarded S B I
  client_does ts pr pw =
      client_session S B I ts X ccfg src_ip verifier cert_now ts_ms r nonce early_data
        (some scfg.server_pk) false client_socket pr pw

  abbrev pub server_does : List Turn → I.Reader → I.Writer → Forwarded S B I
  server_does ts pr pw =
      server_session S B I ts scfg src_ip now now strike_others strike server_socket pr pw

  -- A 0-RTT connection of a client's task and a server's, from the handshake on, with both pumps of
  -- each under `try_join!`: however the rounds of the pumps interleave at each end, both tasks answer
  -- without an error, the target receives the early data and then what the application wrote before
  -- it closed, and the application receives what the target wrote before it closed, behind the
  -- acknowledgement that the client checks, whatever the bytes and however many. The ends are honest,
  -- the server sees the client at the address that the client signs, with no translation of addresses between them, the client has the server's key, its frame and the acknowledgement are within the limits of
  -- the format, the frame is within the timestamp window, and its tag is not in the strike cache. Each
  -- end reads what the other sends over a fresh connection, and no connection fails. The suite is
  -- correct and compact. Each pump has more turns than there are bytes to read for it.
  pub resumed-Delivered :
      (ts ts' : List Turn) (pr pr' : I.Reader) (pw pw' : I.Writer)
      → IsBytes (c.reliable.pending pr)
      → IsBytes (c.reliable.pending pr')
      → IsSendable (server_ack est.expected_ek_hash)
      → c.reliable.sent client_socket.writer ≡ []
      → c.reliable.sent server_socket.writer ≡ []
      → c.reliable.pending server_socket.reader ≡ c.reliable.sent (client_does ts pr pw).tunnel
      → c.reliable.pending client_socket.reader ≡ c.reliable.sent (server_does ts' pr' pw').tunnel
      → length (c.reliable.pending pr) < ups ts
      → length (c.reliable.pending client_socket.reader) < downs ts
      → length (c.reliable.pending pr') < ups ts'
      → length (c.reliable.pending server_socket.reader) < downs ts'
      → ((client_does ts pr pw).answered ≡ some (ok tt))
        × ((server_does ts' pr' pw').answered ≡ some (ok tt))
        × (c.reliable.sent (server_does ts' pr' pw').plain
            ≡ c.reliable.sent pw' ++ (early_data ++ c.reliable.pending pr))
        × (c.reliable.sent (client_does ts pr pw).plain
            ≡ c.reliable.sent pw ++ c.reliable.pending pr')
  unfolding client_session server_session client_open forward joined flush_early send_dir
  resumed-Delivered ts ts' pr pr' pw pw' bytes bytes' ack unused unused' wired wired' n m n' m' =
      let k = c.reliable in
      let expected = est.expected_ek_hash in
      let (w, opened, sent) =
        open_zero_rtt-sent S B I X correct k ccfg scfg ts_ms now honest src_ip r nonce early_data
          verifier cert_now strike strike_others client_socket server_socket frame est built in
      let (est', first, agrees) =
        zero_rtt_agreement S B correct ccfg scfg ts_ms now honest src_ip r nonce early_data strike
          frame est built fresh in
      let conn = connected S B I est.record_layer client (record client_socket { writer = w }) in
      let t = joint S B I conn (some expected) pr pw in
      let (chunks, extends) =
        turns-extends S B I correct compact c client_to_server ts t refl bytes in
      let does : client_does ts pr pw ≡ seen S B I (turns S B I client_to_server ts t) =
        rw opened refl in
      let arrives : k.pending server_socket.reader ≡ on_wire frame ++ chunks =
        wired
        ∙ ap (λ x. k.sent x.tunnel) does
        ∙ extends
        ∙ ap (λ x. x ++ chunks) (sent ∙ ap (λ x. x ++ on_wire frame) unused) in
      let (r2, w2, served, left', replied) =
        server_accept-zero_rtt S B I X correct k ccfg scfg ts_ms now honest src_ip r nonce
          early_data verifier cert_now strike strike_others client_socket server_socket frame _ est'
          chunks sendable arrives first in
      let conn' = connected S B I est'.record_layer server (record { reader = r2; writer = w2 }) in
      let (pw1, flushed, flush) = flush_early-sent S B I k est'.early_data pw' in
      let t' = joint S B I conn' none pr' pw1 in
      let (chunks', extends') =
        turns-extends S B I correct compact c server_to_client ts' t' refl bytes' in
      let after : forward S B I ts' pr' pw' conn' none est'.early_data
          ≡ joined S B I ts' (ok tt) pr' pw1 conn' none =
        rw flushed refl in
      let does' : server_does ts' pr' pw' ≡ seen S B I (turns S B I server_to_client ts' t') =
        rw served after in
      let confirms : k.pending client_socket.reader ≡ on_wire (server_ack expected) ++ chunks' =
        wired'
        ∙ ap (λ x. k.sent x.tunnel) does'
        ∙ extends'
        ∙ ap (λ x. x ++ chunks') (replied ∙ ap (λ x. x ++ on_wire (server_ack expected)) unused') in
      let layers = agrees.same_layer in
      let (e, e', given, given') =
        turns-Confirmed S B I correct compact c ts ts' t t' expected chunks' refl refl refl refl ack
          confirms
          (record {
            key = ap (λ l. l.keys.enc_key) (sym layers);
            pool = ap (λ l. dir_pool B client_to_server l.pool) (sym layers);
          })
          (record {
            key = ap (λ l. l.keys.enc_key) layers;
            pool = ap (λ l. dir_pool B server_to_client l.pool) layers;
          })
          bytes bytes' (extends ∙ ap (λ x. k.sent w ++ x) (sym left')) extends' n m n'
          (omega (
            arith,
            ap length arrives,
            length-append (on_wire frame) chunks,
            ap length left',
            m',
          )) in
      (
        ap (λ x. x.answered) does ∙ e,
        ap (λ x. x.answered) does' ∙ e',
        ap (λ x. k.sent x.plain) does'
            ∙ given
            ∙ ap (λ x. x ++ k.pending pr) (flush ∙ ap (λ x. k.sent pw' ++ x) agrees.data_read)
            ∙ append_assoc (k.sent pw') early_data (k.pending pr),
        ap (λ x. k.sent x.plain) does ∙ given',
      )
