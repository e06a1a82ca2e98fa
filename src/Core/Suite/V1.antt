-- ===== src/Core/Suite/V1.antt =====
-- crates/ort-core/src/suite/v1.rs: the suite V1 over the crates `ml-kem`, `ml-dsa`, `aes-gcm`, `hkdf`
-- and `blake3`, which are the parameter `K`. A fixed-size array of a crate is a list, and an error
-- that the code throws away is `none`.
pub mod Documented
pub mod Correct
use ort.Prelude.{
  ℕ, List, [], Bool, true, false, Option, none, some, Result, ok, err, ok_or, and_then, length,
  ◌==◌, if◌then◌else◌,
}
use ort.Core.Error.{Error, CoreResult, invalid_length, malformed, bad_signature, aead_failure}
use ort.Core.Suite.Ids.{v1_ml_kem768_ml_dsa65}
use ort.Core.Suite.Cipher.{CipherSuite, Blake3}

abbrev pub ml_kem_768_ek : ℕ
ml_kem_768_ek = 1184

abbrev pub ml_kem_768_ct : ℕ
ml_kem_768_ct = 1088

abbrev pub ml_dsa_65_vk : ℕ
ml_dsa_65_vk = 1952

abbrev pub ml_dsa_65_sig : ℕ
ml_dsa_65_sig = 3309

-- `ml_kem` at `MlKem768`.
pub record MlKem : Type 1 where
  pub DecapsulationKey : Type 0
  pub EncapsulationKey : Type 0
  -- `Key::<DecapsulationKey>::try_from` and `DecapsulationKey::new`
  pub dk_key : List ℕ → Option (List ℕ)
  pub dk_new : List ℕ → DecapsulationKey
  pub dk_to_bytes : DecapsulationKey → List ℕ
  pub encapsulation_key : DecapsulationKey → EncapsulationKey
  pub decapsulate_slice : DecapsulationKey → List ℕ → Option (List ℕ)
  -- `Key::<EncapsulationKey>::try_from` and `EncapsulationKey::new`
  pub ek_key : List ℕ → Option (List ℕ)
  pub ek_new : List ℕ → Option EncapsulationKey
  pub ek_to_bytes : EncapsulationKey → List ℕ
  -- the ciphertext and the shared secret
  pub encapsulate_deterministic : EncapsulationKey → List ℕ → List ℕ × List ℕ

-- `ml_dsa` at `MlDsa65`.
pub record MlDsa : Type 1 where
  pub SigningKey : Type 0
  pub VerifyingKey : Type 0
  pub Signature : Type 0
  pub from_seed : List ℕ → SigningKey
  pub to_seed : SigningKey → List ℕ
  pub verifying_key : SigningKey → VerifyingKey
  pub sign : SigningKey → List ℕ → Signature
  pub verify : VerifyingKey → List ℕ → Signature → Bool
  -- `EncodedVerifyingKey::try_from`
  pub encoded_vk : List ℕ → Option (List ℕ)
  pub vk_decode : List ℕ → VerifyingKey
  pub vk_encode : VerifyingKey → List ℕ
  -- `EncodedSignature::try_from`
  pub encoded_sig : List ℕ → Option (List ℕ)
  pub sig_decode : List ℕ → Option Signature
  pub sig_encode : Signature → List ℕ

pub record Crates : Type 1 where
  pub kem : MlKem
  pub dsa : MlDsa
  pub blake3 : Blake3
  -- `Aes256Gcm::new(key).encrypt(nonce, Payload { msg, aad })`: the key, the nonce, `aad`, `msg`
  pub encrypt : List ℕ → List ℕ → List ℕ → List ℕ → Option (List ℕ)
  pub decrypt : List ℕ → List ℕ → List ℕ → List ℕ → Option (List ℕ)
  -- `Hkdf::<Sha256>::new(Some(salt), ikm).expand(info, out)`: `ikm`, the salt, `info`, the length
  pub expand : List ℕ → List ℕ → List ℕ → ℕ → Option (List ℕ)

-- `expect` on a call that the code holds to be sure. It panics on `none`, for which the list stands.
abbrev expected : Option (List ℕ) → List ℕ
expected none = []
expected (some bytes) = bytes

module _ (K : Crates) where
  unfoldable pub kem_secret_from_bytes : List ℕ → CoreResult K.kem.DecapsulationKey
  kem_secret_from_bytes seed =
      and_then
        (ok_or (invalid_length "ml-kem decapsulation seed" 64 (length seed)) (K.kem.dk_key seed))
        λ key. ok (K.kem.dk_new key)

  -- The seed is an array of 64 random bytes; `expect` panics on an error, for which the key of the
  -- bytes stands.
  unfoldable pub kem_generate : List ℕ → K.kem.DecapsulationKey
  unfolding kem_secret_from_bytes
  kem_generate seed = elim (kem_secret_from_bytes seed) [ ok key ↦ key | err e ↦ K.kem.dk_new seed ]

  unfoldable pub kem_secret_to_bytes : K.kem.DecapsulationKey → List ℕ
  kem_secret_to_bytes secret = K.kem.dk_to_bytes secret

  unfoldable pub kem_public : K.kem.DecapsulationKey → List ℕ
  kem_public secret = K.kem.ek_to_bytes (K.kem.encapsulation_key secret)

  unfoldable pub kem_decapsulate : K.kem.DecapsulationKey → List ℕ → CoreResult (List ℕ)
  kem_decapsulate secret ct =
      if length ct == ml_kem_768_ct
      then ok_or (malformed "ml-kem ciphertext") (K.kem.decapsulate_slice secret ct)
      else err (invalid_length "ml-kem ciphertext" ml_kem_768_ct (length ct))

  unfoldable pub kem_encapsulate : List ℕ → List ℕ → CoreResult (List ℕ × List ℕ)
  kem_encapsulate ek r =
      and_then
        (ok_or (invalid_length "ml-kem encapsulation key" ml_kem_768_ek (length ek))
          (K.kem.ek_key ek))
        λ key.
          and_then (ok_or (malformed "ml-kem encapsulation key") (K.kem.ek_new key))
            λ ek'. ok (K.kem.encapsulate_deterministic ek' r)

  unfoldable pub sig_generate : List ℕ → K.dsa.SigningKey
  sig_generate seed = K.dsa.from_seed seed

  unfoldable pub sig_secret_from_bytes : List ℕ → CoreResult K.dsa.SigningKey
  sig_secret_from_bytes seed =
      if length seed == 32
      then ok (K.dsa.from_seed seed)
      else err (invalid_length "ml-dsa signing seed" 32 (length seed))

  unfoldable pub sig_secret_to_bytes : K.dsa.SigningKey → List ℕ
  sig_secret_to_bytes secret = K.dsa.to_seed secret

  unfoldable pub sig_public : K.dsa.SigningKey → List ℕ
  sig_public secret = K.dsa.vk_encode (K.dsa.verifying_key secret)

  unfoldable pub sig_sign : K.dsa.SigningKey → List ℕ → List ℕ
  sig_sign secret msg = K.dsa.sig_encode (K.dsa.sign secret msg)

  unfoldable pub sig_verify : List ℕ → List ℕ → List ℕ → CoreResult (Unit {0})
  sig_verify vk msg sig =
      and_then
        (ok_or (invalid_length "ml-dsa verifying key" ml_dsa_65_vk (length vk))
          (K.dsa.encoded_vk vk))
        λ enc_vk.
          and_then
            (ok_or (invalid_length "ml-dsa signature" ml_dsa_65_sig (length sig))
              (K.dsa.encoded_sig sig))
            λ enc_sig.
              and_then (ok_or bad_signature (K.dsa.sig_decode enc_sig)) λ s.
                if K.dsa.verify (K.dsa.vk_decode enc_vk) msg s then ok tt else err bad_signature

  unfoldable pub aead_seal : List ℕ → List ℕ → List ℕ → List ℕ → List ℕ
  aead_seal key nonce aad pt = expected (K.encrypt key nonce aad pt)

  unfoldable pub aead_open : List ℕ → List ℕ → List ℕ → List ℕ → CoreResult (List ℕ)
  aead_open key nonce aad ct = ok_or aead_failure (K.decrypt key nonce aad ct)

  unfoldable pub hkdf : List ℕ → List ℕ → List ℕ → ℕ → List ℕ
  hkdf ikm salt info n = expected (K.expand ikm salt info n)

  unfoldable pub hash256 : List ℕ → List ℕ
  hash256 bytes = K.blake3.hash bytes

  unfoldable pub hash512 : List ℕ → List ℕ
  hash512 bytes = K.blake3.finalize_xof (K.blake3.update K.blake3.new bytes) 64

  -- `impl CipherSuite for V1`
  abbrev pub v1 : CipherSuite
  v1 = record {
    KemSecret = K.kem.DecapsulationKey;
    SigSecret = K.dsa.SigningKey;
    id = v1_ml_kem768_ml_dsa65;
    kem_ek_len = ml_kem_768_ek;
    kem_ct_len = ml_kem_768_ct;
    sig_vk_len = ml_dsa_65_vk;
    sig_len = ml_dsa_65_sig;
    kem_generate = kem_generate;
    kem_secret_from_bytes = kem_secret_from_bytes;
    kem_secret_to_bytes = kem_secret_to_bytes;
    kem_public = kem_public;
    kem_decapsulate = kem_decapsulate;
    kem_encapsulate = kem_encapsulate;
    sig_generate = sig_generate;
    sig_secret_from_bytes = sig_secret_from_bytes;
    sig_secret_to_bytes = sig_secret_to_bytes;
    sig_public = sig_public;
    sig_sign = sig_sign;
    sig_verify = sig_verify;
    aead_seal = aead_seal;
    aead_open = aead_open;
    hkdf = hkdf;
    hash256 = hash256;
    hash512 = hash512;
  }
