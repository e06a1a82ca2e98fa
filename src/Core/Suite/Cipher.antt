-- ===== src/Core/Suite/Cipher.antt =====
-- The trait `CipherSuite` of crates/ort-core/src/suite/mod.rs as a record of operations, and what
-- the protocol relies on. Arrays are lists. An operation that draws random bytes takes them.
use ort.Prelude.{ℕ, ◌+◌, ◌≤◌, IsBytes, length, ◌≡◌, List, ok}
use ort.Core.Error.{CoreResult}
use ort.Core.Suite.Ids.{SuiteId}

abbrev pub shared_len : ℕ
shared_len = 32

abbrev pub nonce_len : ℕ
nonce_len = 12

abbrev pub tag_len : ℕ
tag_len = 16

abbrev pub r_len : ℕ
r_len = 32

pub record CipherSuite : Type 1 where
  pub KemSecret : Type 0
  pub SigSecret : Type 0
  pub id : SuiteId
  pub kem_ek_len : ℕ
  pub kem_ct_len : ℕ
  pub sig_vk_len : ℕ
  pub sig_len : ℕ
  pub kem_generate : List ℕ → KemSecret
  pub kem_secret_from_bytes : List ℕ → CoreResult KemSecret
  pub kem_secret_to_bytes : KemSecret → List ℕ
  pub kem_public : KemSecret → List ℕ
  pub kem_decapsulate : KemSecret → List ℕ → CoreResult (List ℕ)
  -- the public key and the seed `r`, to the ciphertext and the shared secret
  pub kem_encapsulate : List ℕ → List ℕ → CoreResult (List ℕ × List ℕ)
  pub sig_generate : List ℕ → SigSecret
  pub sig_secret_from_bytes : List ℕ → CoreResult SigSecret
  pub sig_secret_to_bytes : SigSecret → List ℕ
  pub sig_public : SigSecret → List ℕ
  pub sig_sign : SigSecret → List ℕ → List ℕ
  -- the key, the message, the signature
  pub sig_verify : List ℕ → List ℕ → List ℕ → CoreResult (Unit {0})
  -- the key, the nonce, the associated data, the text
  pub aead_seal : List ℕ → List ℕ → List ℕ → List ℕ → List ℕ
  pub aead_open : List ℕ → List ℕ → List ℕ → List ℕ → CoreResult (List ℕ)
  -- the key material, the salt, the label, the length of the output
  pub hkdf : List ℕ → List ℕ → List ℕ → ℕ → List ℕ
  pub hash256 : List ℕ → List ℕ
  pub hash512 : List ℕ → List ℕ

-- What the documentation of the trait promises of honest use: decapsulation inverts encapsulation,
-- a signature verifies under its key, and opening inverts sealing.
pub record IsCorrect (S : CipherSuite) : Type 0 where
  pub kem_correct :
      (sk : S.KemSecret) (r ct shared : List ℕ)
      → S.kem_encapsulate (S.kem_public sk) r ≡ ok (ct, shared)
      → S.kem_decapsulate sk ct ≡ ok shared
  pub sig_correct :
      (sk : S.SigSecret) (msg : List ℕ)
      → S.sig_verify (S.sig_public sk) msg (S.sig_sign sk msg) ≡ ok tt
  pub aead_correct :
      (key nonce aad pt : List ℕ) → S.aead_open key nonce aad (S.aead_seal key nonce aad pt) ≡ ok pt

-- Sealing bytes gives bytes, and no more than a tag beyond the text.
pub record IsCompact (S : CipherSuite) : Type 0 where
  pub sealed_length :
      (key nonce aad pt : List ℕ) → length (S.aead_seal key nonce aad pt) ≤ length pt + tag_len
  pub sealed_bytes :
      (key nonce aad pt : List ℕ) → IsBytes pt → IsBytes (S.aead_seal key nonce aad pt)

-- The crate `blake3`; the entropy pool uses its incremental hasher directly.
pub record Blake3 : Type 1 where
  pub Hasher : Type 0
  pub hash : List ℕ → List ℕ
  pub new : Hasher
  pub new_keyed : List ℕ → Hasher
  pub update : Hasher → List ℕ → Hasher
  -- the first `n` bytes of the extendable output
  pub finalize_xof : Hasher → ℕ → List ℕ
