-- ===== src/Net/Cert.antt =====
-- crates/ort-net/src/cert.rs: when the client trusts a server's key. The crate `x509-parser` is the
-- parameter `X`.
pub mod Policy
use Prim.Native.Nat.{Ordering}
use Prim.Native.String
use Prim.Native.String.{String}
use ort.Prelude.{
  ℕ, List, [], ◌∷◌, Bool, true, false, not, Option, none, some, Result, ok, err, and_then, map_err,
  ok_or, if◌then◌else◌, bytes_eq,
}
use ort.Net.Error.{OrtError, OrtResult, cert}

abbrev pub serverpk_oid_str : String
serverpk_oid_str = "1.3.6.1.4.1.58271.1.1"

-- An error of the crate is what it prints.
pub record X509 : Type 1 where
  pub Certificate : Type 0
  pub PublicKey : Type 0
  -- the bytes behind the certificate, and the certificate
  pub parse_x509_certificate : List ℕ → Result String (List ℕ × Certificate)
  -- `validity().is_valid()`, at a time
  pub is_valid : ℕ → Certificate → Bool
  pub public_key : Certificate → PublicKey
  -- with a key, or with the certificate's own
  pub verify_signature : Option PublicKey → Certificate → Result String (Unit {0})
  -- the identifiers, printed, with the values
  pub extensions : Certificate → List (String × List ℕ)

pub data ServerVerifier : Type 0 where
  trust_on_first_use : ServerVerifier
  -- the certificate of the authority, if one is pinned
  strict : Option (List ℕ) → ServerVerifier

is_equal : Ordering → Bool
is_equal Ordering.eq = true
is_equal Ordering.lt = false
is_equal Ordering.gt = false

-- `==` of two strings
unfoldable pub str_eq : String → String → Bool
unfolding is_equal
str_eq s t = is_equal (String.compare s t)

abbrev pub ensure : Bool → OrtError → OrtResult (Unit {0})
ensure true e = ok tt
ensure false e = err e

is_empty : List ℕ → Bool
is_empty [] = true
is_empty (b ∷ bs) = false

module _ (X : X509) where
  unfoldable pub find_oid : List (String × List ℕ) → Option (List ℕ)
  find_oid [] = none
  find_oid ((oid, value) ∷ es) =
      let rest = find_oid es in if str_eq oid serverpk_oid_str then some value else rest

  unfoldable pub extract_bound_server_pk : X.Certificate → Option (List ℕ)
  unfolding find_oid
  extract_bound_server_pk c = find_oid (X.extensions c)

  abbrev pub labelled : {A : Type 0} → String → Result String A → OrtResult A
  labelled what = map_err λ e. cert (String.◌++◌ what e)

  -- The `match ca`.
  unfoldable pub verify_issuer : X.Certificate → Option (List ℕ) → OrtResult (Unit {0})
  verify_issuer c none = labelled "invalid self-signature: " (X.verify_signature none c)
  verify_issuer c (some ca_der) =
      and_then (labelled "parse CA: " (X.parse_x509_certificate ca_der)) λ (_, ca_cert).
        labelled "certificate not signed by CA: "
          (X.verify_signature (some (X.public_key ca_cert)) c)

  unfoldable pub verify_strict : ℕ → Option (List ℕ) → List ℕ → List ℕ → OrtResult (Unit {0})
  unfolding is_empty
  verify_strict now ca server_pk certificate =
      and_then (ensure (not (is_empty certificate)) (cert "server presented no certificate")) λ _.
        and_then (labelled "parse certificate: " (X.parse_x509_certificate certificate)) λ (_, c).
          and_then (ensure (X.is_valid now c) (cert "certificate expired or not yet valid")) λ _.
            and_then (verify_issuer c ca) λ _.
              and_then
                (ok_or (cert "certificate has no ServerPK extension") (extract_bound_server_pk c))
                λ bound.
                  ensure (bytes_eq bound server_pk)
                    (cert "ServerHello public key does not match certificate binding")

  -- The time, the key, the certificate.
  unfoldable pub verify : ServerVerifier → ℕ → List ℕ → List ℕ → OrtResult (Unit {0})
  verify trust_on_first_use now server_pk certificate = ok tt
  verify (strict ca) now server_pk certificate = verify_strict now ca server_pk certificate
