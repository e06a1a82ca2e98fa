-- ===== src/Bin/Ortd/Issuer.antt =====
-- The crate `rcgen`, which makes the certificate, and what its documentation says of it together
-- with that of `x509-parser`, which reads it.
use Prim.Native.String.{String, ◌++◌}
use ort.Prelude.{
  ℕ, suc, zero, ◌/◌, ◌%◌, ◌≡◌, ◌≢◌, List, [], ◌∷◌, All, Result, ok, true, false, none,
  if◌then◌else◌, ltb, ◌==◌,
}
use ort.Prelude as P
use ort.Net.Cert.{X509, str_eq}

-- SERVERPK_OID_U64 of crates/ort-net/src/cert.rs
abbrev pub serverpk_oid_u64 : List ℕ
serverpk_oid_u64 = 1 ∷ 3 ∷ 6 ∷ 1 ∷ 4 ∷ 1 ∷ 58271 ∷ 1 ∷ 1 ∷ []

-- `KeyPair`, `CertificateParams` with its `custom_extensions`, and the calls; an error is what it
-- prints, and a certificate its DER form.
pub record Rcgen : Type 1 where
  pub KeyPair : Type 0
  pub CertificateParams : Type 0
  pub generate_for : List ℕ → Result String KeyPair
  pub params_new : List String → Result String CertificateParams
  -- the identifier and the content
  pub push_extension : List ℕ → List ℕ → CertificateParams → CertificateParams
  pub self_signed : CertificateParams → KeyPair → Result String (List ℕ)
  pub serialize_der : KeyPair → List ℕ

digit : ℕ → String
digit n =
    if n == 0
    then "0"
    else if n == 1
    then "1"
    else if n == 2
    then "2"
    else if n == 3
    then "3"
    else if n == 4
    then "4"
    else if n == 5
    then "5"
    else if n == 6
    then "6"
    else if n == 7
    then "7"
    else if n == 8
    then "8"
    else "9"

decimal_fuel : ℕ → ℕ → String
decimal_fuel zero n = ""
decimal_fuel (suc fuel) n =
    let rest = decimal_fuel fuel (n / 10) ++ digit (n % 10) in if ltb n 10 then digit n else rest

-- An identifier as it is printed, of numbers of at most ten digits.
unfoldable pub dotted : List ℕ → String
unfolding digit decimal_fuel
dotted [] = ""
dotted (n ∷ []) = decimal_fuel 10 n
dotted (n ∷ m ∷ ns) = decimal_fuel 10 n ++ "." ++ dotted (m ∷ ns)

-- A self-signed certificate, read back: it is current, verifies under its own key, and lists the
-- extension that was pushed, behind extensions with other identifiers.
pub record IsSelfSigned (X : X509) (now : ℕ) (oid content der : List ℕ) : Type 0 where
  pub subject : X.Certificate
  pub rest : List ℕ
  pub before : List (String × List ℕ)
  pub after : List (String × List ℕ)
  pub present : der ≢ []
  pub parses : X.parse_x509_certificate der ≡ ok (rest, subject)
  pub current : X.is_valid now subject ≡ true
  pub signed : X.verify_signature none subject ≡ ok tt
  pub lists : X.extensions subject ≡ P.◌++◌ before ((dotted oid, content) ∷ after)
  pub others : All (λ e. str_eq e.0 (dotted oid) ≡ false) before

-- `ortd` is the name that the certificate is made for; its validity covers `now`.
pub record IsRcgen (R : Rcgen) (X : X509) (now : ℕ) : Type 0 where
  pub self_signed-IsSelfSigned :
      (params : R.CertificateParams) (key_pair : R.KeyPair) (content der : List ℕ)
      → R.params_new ("ortd" ∷ []) ≡ ok params
      → R.self_signed (R.push_extension serverpk_oid_u64 content params) key_pair ≡ ok der
      → IsSelfSigned X now serverpk_oid_u64 content der
