-- ===== src/Core/Suite/V1/Documented.antt =====
-- What the documentation of the crates says, as far as the suite V1 relies on it: the sizes of FIPS
-- 203 and 204, that decoding inverts encoding, and the correctness of the primitives. AES-GCM takes
-- any text: those beyond 64 GiB, which the crate refuses, are left out of account.
use ort.Prelude.{ℕ, ◌+◌, ◌≡◌, List, true, Option, none, some, length, IsBytes, ◌==◌, if◌then◌else◌}
use ort.Core.Suite.V1.{
  MlKem, MlDsa, Crates, ml_kem_768_ek, ml_kem_768_ct, ml_dsa_65_vk, ml_dsa_65_sig,
}

-- `try_from` of a slice to an array of `n` bytes.
abbrev pub array_of : ℕ → List ℕ → Option (List ℕ)
array_of n bytes = if length bytes == n then some bytes else none

pub record IsMlKem (M : MlKem) : Type 0 where
  pub dk_key_array : (bytes : List ℕ) → M.dk_key bytes ≡ array_of 64 bytes
  pub ek_key_array : (bytes : List ℕ) → M.ek_key bytes ≡ array_of ml_kem_768_ek bytes
  pub dk_seed : (seed : List ℕ) → length seed ≡ 64 → M.dk_to_bytes (M.dk_new seed) ≡ seed
  pub dk_restored : (dk : M.DecapsulationKey) → M.dk_new (M.dk_to_bytes dk) ≡ dk
  pub dk_length : (dk : M.DecapsulationKey) → length (M.dk_to_bytes dk) ≡ 64
  pub ek_restored : (ek : M.EncapsulationKey) → M.ek_new (M.ek_to_bytes ek) ≡ some ek
  pub ek_length : (ek : M.EncapsulationKey) → length (M.ek_to_bytes ek) ≡ ml_kem_768_ek
  pub ct_length :
      (ek : M.EncapsulationKey) (m : List ℕ)
      → length (M.encapsulate_deterministic ek m).0 ≡ ml_kem_768_ct
  pub ct_bytes :
      (ek : M.EncapsulationKey) (m : List ℕ) → IsBytes (M.encapsulate_deterministic ek m).0
  pub decapsulates :
      (dk : M.DecapsulationKey) (m : List ℕ)
      → M.decapsulate_slice dk (M.encapsulate_deterministic (M.encapsulation_key dk) m).0
        ≡ some (M.encapsulate_deterministic (M.encapsulation_key dk) m).1

pub record IsMlDsa (M : MlDsa) : Type 0 where
  pub encoded_vk_array : (bytes : List ℕ) → M.encoded_vk bytes ≡ array_of ml_dsa_65_vk bytes
  pub encoded_sig_array : (bytes : List ℕ) → M.encoded_sig bytes ≡ array_of ml_dsa_65_sig bytes
  pub sk_seed : (seed : List ℕ) → length seed ≡ 32 → M.to_seed (M.from_seed seed) ≡ seed
  pub sk_restored : (sk : M.SigningKey) → M.from_seed (M.to_seed sk) ≡ sk
  pub seed_length : (sk : M.SigningKey) → length (M.to_seed sk) ≡ 32
  pub vk_restored : (vk : M.VerifyingKey) → M.vk_decode (M.vk_encode vk) ≡ vk
  pub vk_length : (vk : M.VerifyingKey) → length (M.vk_encode vk) ≡ ml_dsa_65_vk
  pub vk_bytes : (vk : M.VerifyingKey) → IsBytes (M.vk_encode vk)
  pub sig_restored : (s : M.Signature) → M.sig_decode (M.sig_encode s) ≡ some s
  pub sig_length : (s : M.Signature) → length (M.sig_encode s) ≡ ml_dsa_65_sig
  pub sig_bytes : (s : M.Signature) → IsBytes (M.sig_encode s)
  pub verifies :
      (sk : M.SigningKey) (msg : List ℕ) → M.verify (M.verifying_key sk) msg (M.sign sk msg) ≡ true

-- A text is sealed with a tag of sixteen bytes, and opens to itself.
pub record Seals (K : Crates) (key nonce aad pt : List ℕ) : Type 0 where
  pub ct : List ℕ
  pub encrypts : K.encrypt key nonce aad pt ≡ some ct
  pub decrypts : K.decrypt key nonce aad ct ≡ some pt
  pub ct_length : length ct ≡ length pt + 16
  pub ct_bytes : IsBytes pt → IsBytes ct

pub record IsDocumented (K : Crates) : Type 0 where
  pub ml_kem : IsMlKem K.kem
  pub ml_dsa : IsMlDsa K.dsa
  pub aes_gcm : (key nonce aad pt : List ℕ) → Seals K key nonce aad pt
