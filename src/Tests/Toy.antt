-- ===== src/Tests/Toy.antt =====
-- A cipher suite and a hasher in plain list operations, to run the protocol on. They keep the
-- promises of `IsCorrect`, and nothing is secret in them.
use ort.Prelude.{
  ◌%◌, ◌≤◌, ◌<◌, zero, suc, sym, [], ◌∷◌, map, true, ltb, lt→ltb, le→ltb, IsByte, IsBytes,
  All-append, length-append, length-take, take-append-drop, arith, ℕ, ◌≡◌, refl, List, ◌++◌, ok,
  err, bytes_eq, bytes_eq_refl, if◌then◌else◌, length, take, drop, take-append, drop-append,
}
use ort.Net.Error.{unexpected_eof}
use ort.Net.Stream.{Stream, IsReliable}
use ort.Net.Cert.{X509, serverpk_oid_str}
use ort.Core.Error.{bad_signature, aead_failure}
use ort.Core.Suite.Ids.{v1_ml_kem768_ml_dsa65}
use ort.Core.Suite.Cipher.{CipherSuite, Blake3, IsCorrect, IsCompact}

-- Sixteen bytes at most, from the end of the label on.
abbrev pub mac : List ℕ → List ℕ
mac aad = map (λ b. b % 256) (take 16 (drop 3 aad))

-- The public key of a secret is the secret; a ciphertext is the shared secret. A record is
-- bytes of its associated data and its text.
abbrev pub toy : CipherSuite
toy = record {
  KemSecret = List ℕ;
  SigSecret = List ℕ;
  id = v1_ml_kem768_ml_dsa65;
  kem_ek_len = 2;
  kem_ct_len = 2;
  sig_vk_len = 2;
  sig_len = 2;
  kem_generate = λ seed. seed;
  kem_secret_from_bytes = λ seed. ok seed;
  kem_secret_to_bytes = λ sk. sk;
  kem_public = λ sk. sk;
  kem_decapsulate = λ sk ct. ok ct;
  kem_encapsulate = λ ek r. ok (r, r);
  sig_generate = λ seed. seed;
  sig_secret_from_bytes = λ seed. ok seed;
  sig_secret_to_bytes = λ sk. sk;
  sig_public = λ sk. sk;
  sig_sign = λ sk msg. sk ++ msg;
  sig_verify = λ vk msg sig. if bytes_eq (vk ++ msg) sig then ok tt else err bad_signature;
  aead_seal = λ key nonce aad pt. mac aad ++ pt;
  aead_open = λ key nonce aad ct.
      if bytes_eq (mac aad) (take (length (mac aad)) ct)
      then ok (drop (length (mac aad)) ct)
      else err aead_failure;
  hkdf = λ ikm salt info n. ikm;
  hash256 = λ m. m;
  hash512 = λ m. m;
}

abbrev pub toy_blake3 : Blake3
toy_blake3 = record {
  Hasher = List ℕ;
  hash = λ m. m;
  new = [];
  new_keyed = λ key. key;
  update = λ h bytes. h ++ bytes;
  finalize_xof = λ h n. take n h;
}

opens :
    (aad pt : List ℕ)
    → (if bytes_eq aad (take (length aad) (aad ++ pt))
        then ok (drop (length aad) (aad ++ pt))
        else err aead_failure)
      ≡ ok pt
opens aad pt =
    rw (take-append (length aad) aad pt refl, drop-append (length aad) aad pt refl, bytes_eq_refl)

pub toy-IsCorrect : IsCorrect toy
toy-IsCorrect = record {
  kem_correct = λ sk r ct shared e. cc e;
  sig_correct = λ sk msg. rw bytes_eq_refl;
  aead_correct = λ key nonce aad pt. opens (mac aad) pt;
}

pub length-map : (f : ℕ → ℕ) (bs : List ℕ) → length (map f bs) ≡ length bs
length-map f [] = refl
length-map f (b ∷ bs) = omega (arith, length-map f bs)

mac-length : (aad : List ℕ) → length (mac aad) ≤ 16
mac-length aad =
    omega (arith, length-map (λ b. b % 256) (take 16 (drop 3 aad)), length-take 16 (drop 3 aad))

pub map-IsBytes : (bs : List ℕ) → IsBytes (map (λ b. b % 256) bs)
map-IsBytes [] = tt
map-IsBytes (b ∷ bs) = (omega arith, map-IsBytes bs)

pub toy-IsCompact : IsCompact toy
toy-IsCompact = record {
  sealed_length = λ key nonce aad pt. omega (arith, length-append (mac aad) pt, mac-length aad);
  sealed_bytes =
      λ key nonce aad pt h. All-append IsByte (mac aad) pt (map-IsBytes (take 16 (drop 3 aad))) h;
}

-- A stream whose halves are the bytes to come and the bytes that were written.
abbrev pub toy_stream : Stream
toy_stream = record {
  Reader = List ℕ;
  Writer = List ℕ;
  read = λ n r. (ok (take n r), drop n r);
  read_exact =
      λ n r. if ltb (length r) n then (err unexpected_eof, []) else (ok (take n r), drop n r);
  write_all = λ bs w. (ok tt, w ++ bs);
  flush = λ w. (ok tt, w);
  shutdown = λ w. (ok tt, w);
}

pub take-nil : (n : ℕ) (r : List ℕ) → 0 < n → take n r ≡ [] → r ≡ []
take-nil zero r h e = absurd (omega arith)
take-nil (suc n) [] h e = refl
take-nil (suc n) (x ∷ xs) h e = cc

abbrev pub toy-IsReliable : IsReliable toy_stream
toy-IsReliable = record {
  pending = λ r. r;
  sent = λ w. w;
  reads = λ r n h. (
    take n r,
    drop n r,
    refl,
    sym (take-append-drop n r),
    omega (arith, length-take n r),
    take-nil n r h,
  );
  read_whole = λ r n bs rest h e. (
    rest,
    rw (
      e,
      le→ltb (length (bs ++ rest)) n (omega (arith, length-append bs rest)),
      take-append n bs rest h,
      drop-append n bs rest h,
    ),
    refl,
  );
  read_short = λ r n h. rw (lt→ltb (length r) n h);
  writes = λ w bs. (w ++ bs, refl, refl);
  flushes = λ w. (w, refl, refl);
  shuts = λ w. (w, refl, refl);
}

-- A certificate is the key it binds, behind a byte that says whether it is signed.
abbrev pub toy_x509 : X509
toy_x509 = record {
  Certificate = List ℕ;
  PublicKey = List ℕ;
  parse_x509_certificate = λ der. ok ([], der);
  is_valid = λ now c. true;
  public_key = λ c. c;
  verify_signature = λ key c. if bytes_eq (take 1 c) (1 ∷ []) then ok tt else err "signature";
  extensions = λ c. (serverpk_oid_str, drop 1 c) ∷ [];
}
