-- ===== src/Net/Cert/Policy.antt =====
-- What a strict verifier has established when it accepts.
use ort.Prelude.{
  ℕ, ◌≡◌, ◌≢◌, ◌↔◌, bytes_eq→eq, and_then-eq-ok, map_err-eq-ok, ok_or-eq-ok, ap, ◌∙◌, bytes_eq_refl,
  refl, List, [], ◌∷◌, Bool, true, false, Option, none, some, ok,
}
use ort.Net.Error.{OrtError}
use ort.Net.Cert.{
  X509, strict, ensure, extract_bound_server_pk, verify_issuer, verify_strict, verify,
}

module _ (X : X509) where
  -- The signature of `c` was verified, under the authority's key if there is one.
  abbrev pub IsSigned : Option (List ℕ) → X.Certificate → Type 0
  IsSigned none c = X.verify_signature none c ≡ ok tt
  IsSigned (some ca_der) c =
      (rest : List ℕ) × (ca : X.Certificate) × (X.parse_x509_certificate ca_der ≡ ok (rest, ca))
      × (X.verify_signature (some (X.public_key ca)) c ≡ ok tt)

  -- `server_pk` is the key that a current, signed certificate binds.
  pub record IsBound (ca : Option (List ℕ)) (now : ℕ) (server_pk certificate : List ℕ)
      : Type 0 where
    pub subject : X.Certificate
    pub rest : List ℕ
    pub present : certificate ≢ []
    pub parses : X.parse_x509_certificate certificate ≡ ok (rest, subject)
    pub current : X.is_valid now subject ≡ true
    pub signed : IsSigned ca subject
    pub binds : extract_bound_server_pk X subject ≡ some server_pk

  verify_issuer-IsSigned :
      (ca : Option (List ℕ)) (c : X.Certificate) → verify_issuer X c ca ≡ ok tt → IsSigned ca c
  unfolding verify_issuer
  verify_issuer-IsSigned none c h = map_err-eq-ok _ _ h
  verify_issuer-IsSigned (some ca_der) c h =
      let ((rest, ca), e, k) = and_then-eq-ok _ _ h in
      (rest, ca, map_err-eq-ok _ _ e, map_err-eq-ok _ _ k)

  ensure-true : (b : Bool) (e : OrtError) → ensure b e ≡ ok tt → b ≡ true
  ensure-true true e h = refl
  ensure-true false e h = cc

  IsSigned-verify_issuer :
      (ca : Option (List ℕ)) (c : X.Certificate) → IsSigned ca c → verify_issuer X c ca ≡ ok tt
  unfolding verify_issuer
  IsSigned-verify_issuer none c h = rw h
  IsSigned-verify_issuer (some ca_der) c (rest, ca, e, h) = rw (e, h)

  verify-IsBound :
      (ca : Option (List ℕ)) (now : ℕ) (server_pk certificate : List ℕ)
      → verify X (strict ca) now server_pk certificate ≡ ok tt
      → IsBound ca now server_pk certificate
  unfolding verify verify_strict
  verify-IsBound ca now server_pk [] h = absurd (cc h)
  verify-IsBound ca now server_pk (b ∷ bs) h =
      let ((rest, c), parses, h1) = and_then-eq-ok _ _ h in
      let (_, current, h2) = and_then-eq-ok _ _ h1 in
      let (_, signed, h3) = and_then-eq-ok _ _ h2 in
      let (bound, found, same) = and_then-eq-ok _ _ h3 in
      let binds : bound ≡ server_pk = bytes_eq→eq bound server_pk (ensure-true _ _ same) in
      record {
        subject = c;
        rest = rest;
        present = λ p. cc p;
        parses = map_err-eq-ok _ _ parses;
        current = ensure-true _ _ current;
        signed = verify_issuer-IsSigned ca c signed;
        binds = ok_or-eq-ok _ _ found ∙ ap some binds;
      }

  IsBound-verify :
      (ca : Option (List ℕ)) (now : ℕ) (server_pk certificate : List ℕ)
      → IsBound ca now server_pk certificate
      → verify X (strict ca) now server_pk certificate ≡ ok tt
  unfolding verify verify_strict
  IsBound-verify ca now server_pk [] h = absurd (h.present refl)
  IsBound-verify ca now server_pk (b ∷ bs) h = rw (
    h.parses,
    h.current,
    IsSigned-verify_issuer ca h.subject h.signed,
    h.binds,
    bytes_eq_refl server_pk,
  )

  -- A strict verifier accepts a server's key exactly if there is a certificate that parses, is
  -- current, is signed (under the key of the pinned authority, or under its own), and binds that key
  -- in its extension.
  pub verify_iff :
      (ca : Option (List ℕ)) (now : ℕ) (server_pk certificate : List ℕ)
      → (verify X (strict ca) now server_pk certificate ≡ ok tt)
        ↔ IsBound ca now server_pk certificate
  verify_iff ca now server_pk certificate =
      (verify-IsBound ca now server_pk certificate, IsBound-verify ca now server_pk certificate)
