-- ===== src/Net/Session/Trust.antt =====
-- Which keys the client accepts.
use ort.Prelude.{
  ℕ, ◌≡◌, refl, ap, List, Bool, true, false, Option, none, some, ok, map_err, ◌⊎◌, inl, inr,
  bytes_eq→eq, arith, ok_injective,
}
use ort.Core.Suite.Cipher.{CipherSuite, Blake3}
use ort.Core.Handshake.Client.{
  ClientConfig, ClientEstablished, client_one_rtt_hello, client_one_rtt_finish, client_zero_rtt,
}
use ort.Core.Error.{CoreResult}
use ort.Proto.Messages.Frames.{Frame}
use mathlib.Core.Path.{subst}
use ort.Net.Error.{core}
use ort.Net.Io.{lift, bind-ok}
use ort.Net.Stream.{Stream}
use ort.Net.Cert.{X509, ServerVerifier, verify}
use ort.Net.Session.{
  Socket, send, receive, ClientOutcome, hello_fields, check_pin, open_zero_rtt, open_one_rtt,
  client_open,
}

module _ (S : CipherSuite) (B : Blake3) (I : Stream) (X : X509) (ccfg : ClientConfig S)
    (src_ip : List ℕ) (verifier : ServerVerifier) (cert_now now : ℕ)
    (r nonce early_data : List ℕ) where
  -- The pinned key, or a key that the verifier accepts with some certificate where no key is pinned.
  abbrev pub IsTrusted : Option (List ℕ) → List ℕ → Type 0
  IsTrusted pin server_pk =
      (pin ≡ some server_pk)
      ⊎ ((pin ≡ none)
          × (certificate : List ℕ) × (verify X verifier cert_now server_pk certificate ≡ ok tt))

  check_pin-IsTrusted :
      (pin : Option (List ℕ)) (server_pk certificate : List ℕ)
      → verify X verifier cert_now server_pk certificate ≡ ok tt
      → check_pin pin server_pk ≡ ok tt
      → IsTrusted pin server_pk
  unfolding check_pin
  check_pin-IsTrusted none server_pk certificate v h = inr (refl, certificate, v)
  check_pin-IsTrusted (some p) server_pk certificate v h =
      inl (ap some (ground (arith, bytes_eq→eq p server_pk)))

  abbrev finish : List ℕ → CoreResult (Frame × ClientEstablished S B)
  finish server_pk = client_one_rtt_finish S B ccfg server_pk src_ip now r nonce early_data

  open_one_rtt-IsTrusted :
      (pin : Option (List ℕ)) (s s' : Socket I) (outcome : ClientOutcome S B I)
      → open_one_rtt S B I X ccfg src_ip verifier cert_now now r nonce early_data pin s
        ≡ (ok outcome, s')
      → IsTrusted pin outcome.server_pk
  unfolding open_one_rtt
  open_one_rtt-IsTrusted pin s s' outcome h =
      let (_, _, h1) = bind-ok (send I (client_one_rtt_hello S ccfg)) _ s h in
      let (hello, _, h2) = bind-ok (receive I) _ _ h1 in
      let ((server_pk, certificate), _, h3) = bind-ok (lift (hello_fields hello)) _ _ h2 in
      let (_, v, h4) = bind-ok (lift (verify X verifier cert_now server_pk certificate)) _ _ h3 in
      let (_, p, h5) = bind-ok (lift (check_pin pin server_pk)) _ _ h4 in
      let ((frame, est), _, h6) = bind-ok (lift (map_err core (finish server_pk))) _ _ h5 in
      let (_, _, h7) = bind-ok (send I frame) _ _ h6 in
      subst (IsTrusted pin)
        (ap (λ (o : ClientOutcome S B I). o.server_pk) (ok_injective (ap (λ x. x.0) h7)))
        (check_pin-IsTrusted pin server_pk certificate v p)

  -- If the client's handshake succeeds, forced to 1-RTT or not, the server's key is the pinned one,
  -- or none was pinned and the verifier accepted the key with some certificate.
  pub client_open-IsTrusted :
      (pin : Option (List ℕ)) (force_1rtt : Bool) (s s' : Socket I) (outcome : ClientOutcome S B I)
      → client_open S B I X ccfg src_ip verifier cert_now now r nonce early_data pin force_1rtt s
        ≡ (ok outcome, s')
      → IsTrusted pin outcome.server_pk
  unfolding client_open open_zero_rtt
  client_open-IsTrusted (some spk) true s s' outcome h =
      open_one_rtt-IsTrusted (some spk) s s' outcome h
  client_open-IsTrusted none force s s' outcome h = open_one_rtt-IsTrusted none s s' outcome h
  client_open-IsTrusted (some spk) false s s' outcome h =
      let ((frame, est), _, h1) =
        bind-ok (lift (map_err core (client_zero_rtt S B ccfg spk src_ip now r nonce early_data))) _
          s h in
      let (_, _, h2) = bind-ok (send I frame) _ _ h1 in
      inl (ap (λ (o : ClientOutcome S B I). some o.server_pk) (ok_injective (ap (λ x. x.0) h2)))
