-- ===== src/Core/Suite/V1/Correct.antt =====
-- V1 keeps the promises of the trait: what is encapsulated, signed and sealed passes the checks of
-- the other side.
use ort.Prelude.{
  ℕ, ◌+◌, ◌≡◌, ◌≤◌, ◌↔◌, sym, ap, ◌∙◌, List, some, ok, length, IsBytes, ◌==◌, ==_iff, Bool-cases,
  inl, inr, ok_injective, arith,
}
use mathlib.Core.Path.{subst}
use ort.Core.Suite.Cipher.{IsCorrect, IsCompact}
use ort.Core.Suite.V1.{
  Crates, v1, kem_secret_from_bytes, kem_secret_to_bytes, kem_public, kem_decapsulate,
  kem_encapsulate, sig_secret_from_bytes, sig_secret_to_bytes, sig_public, sig_sign, sig_verify,
  aead_seal, aead_open,
}
use ort.Core.Suite.V1.Documented.{array_of, IsDocumented}

array_of-some : (n : ℕ) (bytes : List ℕ) → length bytes ≡ n → array_of n bytes ≡ some bytes
array_of-some n bytes h = rw ((==_iff (length bytes) n).1 h)

module _ (K : Crates) (d : IsDocumented K) where
  pub kem_encapsulate-kem_public :
      (sk : K.kem.DecapsulationKey) (r : List ℕ)
      → kem_encapsulate K (kem_public K sk) r
        ≡ ok (K.kem.encapsulate_deterministic (K.kem.encapsulation_key sk) r)
  unfolding kem_encapsulate kem_public
  kem_encapsulate-kem_public sk r =
      let ek = K.kem.encapsulation_key sk in
      rw (d.ml_kem.ek_key_array, array_of-some _ _ (d.ml_kem.ek_length ek), d.ml_kem.ek_restored)

  kem_decapsulate-kem_encapsulate :
      (sk : K.kem.DecapsulationKey) (r ct shared : List ℕ)
      → kem_encapsulate K (kem_public K sk) r ≡ ok (ct, shared)
      → kem_decapsulate K sk ct ≡ ok shared
  unfolding kem_decapsulate
  kem_decapsulate-kem_encapsulate sk r ct shared e =
      let ek = K.kem.encapsulation_key sk in
      let is : K.kem.encapsulate_deterministic ek r ≡ (ct, shared) =
        ok_injective (sym (kem_encapsulate-kem_public sk r) ∙ e) in
      let opens : K.kem.decapsulate_slice sk ct ≡ some shared =
        subst (λ x. K.kem.decapsulate_slice sk x.0 ≡ some x.1) is (d.ml_kem.decapsulates sk r) in
      let long : length ct ≡ 1088 = ap (λ x. length x.0) (sym is) ∙ d.ml_kem.ct_length ek r in
      rw ((==_iff (length ct) 1088).1 long, opens)

  sig_verify-sig_sign :
      (sk : K.dsa.SigningKey) (msg : List ℕ)
      → sig_verify K (sig_public K sk) msg (sig_sign K sk msg) ≡ ok tt
  unfolding sig_verify sig_public sig_sign
  sig_verify-sig_sign sk msg = rw (
    d.ml_dsa.encoded_vk_array,
    array_of-some _ _ (d.ml_dsa.vk_length (K.dsa.verifying_key sk)),
    d.ml_dsa.encoded_sig_array,
    array_of-some _ _ (d.ml_dsa.sig_length (K.dsa.sign sk msg)),
    d.ml_dsa.sig_restored,
    d.ml_dsa.vk_restored,
    d.ml_dsa.verifies,
  )

  aead_open-aead_seal :
      (key nonce aad pt : List ℕ) → aead_open K key nonce aad (aead_seal K key nonce aad pt) ≡ ok pt
  unfolding aead_open aead_seal
  aead_open-aead_seal key nonce aad pt =
      let s = d.aes_gcm key nonce aad pt in rw (s.encrypts, s.decrypts)

  sealed_length :
      (key nonce aad pt : List ℕ) → length (aead_seal K key nonce aad pt) ≤ length pt + 16
  unfolding aead_seal
  sealed_length key nonce aad pt =
      let s = d.aes_gcm key nonce aad pt in rw s.encrypts (omega (arith, s.ct_length))

  sealed-IsBytes : (key nonce aad pt : List ℕ) → IsBytes pt → IsBytes (aead_seal K key nonce aad pt)
  unfolding aead_seal
  sealed-IsBytes key nonce aad pt h =
      let s = d.aes_gcm key nonce aad pt in rw s.encrypts (s.ct_bytes h)

  pub kem_seed_iff :
      (kem : K.kem.DecapsulationKey) (bytes : List ℕ)
      → (kem_secret_from_bytes K bytes ≡ ok kem) ↔ (kem_secret_to_bytes K kem ≡ bytes)
  unfolding kem_secret_from_bytes kem_secret_to_bytes
  kem_seed_iff kem bytes = (
    λ h. elim (Bool-cases (length bytes == 64)) [
      | inl long ↦
          let made : K.kem.dk_new bytes ≡ kem =
            ok_injective (rw (d.ml_kem.dk_key_array, long) at h) in
          rw (sym made) (d.ml_kem.dk_seed bytes ((==_iff _ _).0 long))
      | inr short ↦ absurd (cc (rw (d.ml_kem.dk_key_array, short) at h))
    ],
    λ e. rw (
      sym e,
      d.ml_kem.dk_key_array,
      array_of-some _ _ (d.ml_kem.dk_length kem),
      d.ml_kem.dk_restored,
    ),
  )

  pub sig_seed_iff :
      (sig : K.dsa.SigningKey) (bytes : List ℕ)
      → (sig_secret_from_bytes K bytes ≡ ok sig) ↔ (sig_secret_to_bytes K sig ≡ bytes)
  unfolding sig_secret_from_bytes sig_secret_to_bytes
  sig_seed_iff sig bytes = (
    λ h. elim (Bool-cases (length bytes == 32)) [
      | inl long ↦
          let made : K.dsa.from_seed bytes ≡ sig = ok_injective (rw long at h) in
          rw (sym made) (d.ml_dsa.sk_seed bytes ((==_iff _ _).0 long))
      | inr short ↦ absurd (cc (rw short at h))
    ],
    λ e. rw (sym e, (==_iff _ _).1 (d.ml_dsa.seed_length sig), d.ml_dsa.sk_restored),
  )

  -- The 64 bytes of a stored KEM key and the 32 bytes of a stored signing key give the key back;
  -- bytes of any other length give no key.
  pub seeds_iff :
      (kem : K.kem.DecapsulationKey) (sig : K.dsa.SigningKey) (bytes : List ℕ)
      → ((kem_secret_from_bytes K bytes ≡ ok kem) ↔ (kem_secret_to_bytes K kem ≡ bytes))
        × ((sig_secret_from_bytes K bytes ≡ ok sig) ↔ (sig_secret_to_bytes K sig ≡ bytes))
  seeds_iff kem sig bytes = (kem_seed_iff kem bytes, sig_seed_iff sig bytes)

  -- On crates that do what they document, V1 keeps the promises of the trait: decapsulation inverts
  -- encapsulation, signatures verify and sealed texts open, past every check of a length or an
  -- encoding.
  pub v1-IsCorrect : IsCorrect (v1 K)
  v1-IsCorrect = record {
    kem_correct = kem_decapsulate-kem_encapsulate;
    sig_correct = sig_verify-sig_sign;
    aead_correct = aead_open-aead_seal;
  }

  -- On such crates V1 is compact: a sealed text is a tag of sixteen bytes longer.
  pub v1-IsCompact : IsCompact (v1 K)
  v1-IsCompact = record { sealed_length = sealed_length; sealed_bytes = sealed-IsBytes }
