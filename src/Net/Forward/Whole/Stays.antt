-- ===== src/Net/Forward/Whole/Stays.antt =====
-- A task that has an answer keeps to it, whatever turns come behind.
use ort.Prelude.{ℕ, ◌≡◌, refl, ap, List, [], ◌++◌, Bool, Option, none, some, ok, err, map_err}
use ort.Core.Suite.Cipher.{CipherSuite, Blake3}
use ort.Core.Replay.{StrikeCache}
use ort.Core.Handshake.Client.{ClientConfig}
use ort.Core.Handshake.Server.{ServerConfig}
use ort.Net.Error.{OrtResult, io}
use ort.Net.Stream.{Stream}
use ort.Net.Cert.{X509, ServerVerifier}
use ort.Net.Session.{
  Socket, OrtConn, ClientOutcome, ServerOutcome, send_dir, client_open, server_accept,
}
use ort.Net.Forward.{flush_early}
use ort.Net.Forward.Turns.{Turn}
use ort.Net.Forward.Turns.Settled.{turns-behind}
use ort.Net.Forward.Whole.{
  joint, seen, joined, forward, client_opened, server_accepted, client_session, server_session,
}

module _ (S : CipherSuite) (B : Blake3) (I : Stream) (ts us : List Turn)
    (r : OrtResult (Unit {0})) where
  joined-stays :
      (flushed : OrtResult (Unit {0})) (pr : I.Reader) (pw : I.Writer) (conn : OrtConn S B I)
      (expect_ack : Option (List ℕ))
      → (joined S B I ts flushed pr pw conn expect_ack).answered ≡ some r
      → joined S B I (ts ++ us) flushed pr pw conn expect_ack
        ≡ joined S B I ts flushed pr pw conn expect_ack
  unfolding joined
  joined-stays (err e) pr pw conn expect_ack h = refl
  joined-stays (ok _) pr pw conn expect_ack h =
      ap (seen S B I)
        (turns-behind S B I (send_dir conn.role) ts us (joint S B I conn expect_ack pr pw) r h)

  forward-stays :
      (pr : I.Reader) (pw : I.Writer) (conn : OrtConn S B I) (expect_ack : Option (List ℕ))
      (early : List ℕ)
      → (forward S B I ts pr pw conn expect_ack early).answered ≡ some r
      → forward S B I (ts ++ us) pr pw conn expect_ack early
        ≡ forward S B I ts pr pw conn expect_ack early
  unfolding forward
  forward-stays pr pw conn expect_ack early h =
      joined-stays (map_err io (flush_early S B I early pw).0) pr (flush_early S B I early pw).1
        conn expect_ack h

  opened-stays :
      (opened : OrtResult (ClientOutcome S B I)) (s : Socket I) (pr : I.Reader) (pw : I.Writer)
      → (client_opened S B I ts opened s pr pw).answered ≡ some r
      → client_opened S B I (ts ++ us) opened s pr pw ≡ client_opened S B I ts opened s pr pw
  unfolding client_opened
  opened-stays (err e) s pr pw h = refl
  opened-stays (ok o) s pr pw h = forward-stays pr pw o.conn o.expect_ack [] h

  accepted-stays :
      (accepted : OrtResult (ServerOutcome S B I)) (s : Socket I) (pr : I.Reader) (pw : I.Writer)
      → (server_accepted S B I ts accepted s pr pw).answered ≡ some r
      → server_accepted S B I (ts ++ us) accepted s pr pw
        ≡ server_accepted S B I ts accepted s pr pw
  unfolding server_accepted
  accepted-stays (err e) s pr pw h = refl
  accepted-stays (ok o) s pr pw h = forward-stays pr pw o.conn none o.early_data h

  pub client_session-stays :
      (X : X509) (ccfg : ClientConfig S) (src_ip : List ℕ) (verifier : ServerVerifier)
      (cert_now now : ℕ) (rand nonce early_data : List ℕ) (cached : Option (List ℕ))
      (force_1rtt : Bool) (socket : Socket I) (pr : I.Reader) (pw : I.Writer)
      → (client_session S B I ts X ccfg src_ip verifier cert_now now rand nonce early_data cached
          force_1rtt socket pr pw).answered
        ≡ some r
      → client_session S B I
          (ts ++ us)
          X
          ccfg
          src_ip
          verifier
          cert_now
          now
          rand
          nonce
          early_data
          cached
          force_1rtt
          socket
          pr
          pw
        ≡ client_session S B I ts X ccfg src_ip verifier cert_now now rand nonce early_data cached
            force_1rtt socket pr pw
  unfolding client_session
  client_session-stays X ccfg src_ip verifier cert_now now rand nonce early_data cached force_1rtt
        socket pr pw h =
      let (opened, s) =
        client_open S B I X ccfg src_ip verifier cert_now now rand nonce early_data cached
          force_1rtt socket in
      opened-stays opened s pr pw h

  pub server_session-stays :
      (scfg : ServerConfig S) (peer_ip : List ℕ) (now1 now2 : ℕ)
      (strike_others : StrikeCache → StrikeCache) (strike : StrikeCache) (socket : Socket I)
      (pr : I.Reader) (pw : I.Writer)
      → (server_session S B I ts scfg peer_ip now1 now2 strike_others strike socket pr pw).answered
        ≡ some r
      → server_session S B I (ts ++ us) scfg peer_ip now1 now2 strike_others strike socket pr pw
        ≡ server_session S B I ts scfg peer_ip now1 now2 strike_others strike socket pr pw
  unfolding server_session
  server_session-stays scfg peer_ip now1 now2 strike_others strike socket pr pw h =
      let (accepted, (s, _)) =
        server_accept S B I scfg peer_ip now1 now2 strike_others (socket, strike) in
      accepted-stays accepted s pr pw h
