-- ===== src/Tests/Crates.antt =====
-- Crates that do what `IsDocumented` says, to show that it can be met. The sizes are those of the
-- real ones; nothing is secret in them.
use ort.Prelude.{
  ℕ, suc, ◌≡◌, refl, ap, List, [], ◌∷◌, ◌++◌, Bool, true, false, some, take, drop, replicate,
  length-append, take-append, IsByte, ◌∙◌, All-append, ◌==◌, drop-append, ok, arith,
}
use ort.Core.Suite.Cipher.{IsCorrect}
use ort.Core.Suite.V1.{MlKem, MlDsa, Crates, v1, sig_public, kem_public}
use ort.Core.Suite.V1.Documented.{array_of, IsMlKem, IsMlDsa, IsDocumented}
use ort.Core.Suite.V1.Correct.{v1-IsCorrect}
use ort.Core.Handshake.Client.{
  ClientConfig, client_zero_rtt, client_one_rtt_hello, client_one_rtt_finish,
}
use ort.Net.Session.Wire.{IsSendable}
use ort.Net.Session.Fits.{IsTyped, made, zero_rtt_frame, data_frame, client_frames-IsSendable}
use ort.Tests.Toy.{toy_blake3}
use ort.Tests.Arrays.{
  Array, zeros, length-zeros, array, array-long, array-eta, sized, length-sized, sized-IsBytes,
  zeros-IsBytes,
}

-- The key pair is the seed; a ciphertext is the randomness, and its start the shared secret.
abbrev toy_kem : MlKem
toy_kem = record {
  DecapsulationKey = Array 64;
  EncapsulationKey = Array 64;
  dk_key = array_of 64;
  dk_new = array 64;
  dk_to_bytes = λ dk. dk.0;
  encapsulation_key = λ dk. dk;
  decapsulate_slice = λ dk ct. some (take 32 ct);
  ek_key = array_of 1184;
  ek_new = λ bytes. some (array 64 (take 64 bytes));
  ek_to_bytes = λ ek. ek.0 ++ zeros 1120;
  encapsulate_deterministic = λ ek m. (sized 1088 m, take 32 (sized 1088 m));
}

-- A key and a signature are one byte and zeros; the byte of a key says whether its seed starts
-- with zero, and so does a signature's.
abbrev starts : List ℕ → Bool
starts [] = true
starts (x ∷ xs) = x == 0

abbrev bit : Bool → ℕ
bit true = 0
bit false = 1

abbrev agree : Bool → Bool → Bool
agree true b = b
agree false true = false
agree false false = true

abbrev toy_dsa : MlDsa
toy_dsa = record {
  SigningKey = Array 32;
  VerifyingKey = Bool;
  Signature = Bool;
  from_seed = array 32;
  to_seed = λ sk. sk.0;
  verifying_key = λ sk. starts sk.0;
  sign = λ sk msg. starts sk.0;
  verify = λ vk msg s. agree vk s;
  encoded_vk = array_of 1952;
  vk_decode = starts;
  vk_encode = λ vk. bit vk ∷ zeros 1951;
  encoded_sig = array_of 3309;
  sig_decode = λ bytes. some (starts bytes);
  sig_encode = λ s. bit s ∷ zeros 3308;
}

-- A text is sealed with a tag of zeros.
abbrev pub toy_crates : Crates
toy_crates = record {
  kem = toy_kem;
  dsa = toy_dsa;
  blake3 = toy_blake3;
  encrypt = λ key nonce aad pt. some (zeros 16 ++ pt);
  decrypt = λ key nonce aad ct. some (drop 16 ct);
  expand = λ ikm salt info n. some (sized n ikm);
}

starts-bit : (b : Bool) (bytes : List ℕ) → starts (bit b ∷ bytes) ≡ b
starts-bit true bytes = refl
starts-bit false bytes = refl

bit-IsByte : (b : Bool) → IsByte (bit b)
bit-IsByte true = omega arith
bit-IsByte false = omega arith

agree_refl : (b : Bool) → agree b b ≡ true
agree_refl true = refl
agree_refl false = refl

kem_documented : IsMlKem toy_kem
kem_documented = record {
  dk_key_array = λ bytes. refl;
  ek_key_array = λ bytes. refl;
  dk_seed = array-long 64;
  dk_restored = array-eta 64;
  dk_length = λ dk. dk.1;
  ek_restored =
      λ ek. ap some (ap (array 64) (take-append 64 ek.0 (zeros 1120) ek.1) ∙ array-eta 64 ek);
  ek_length = λ ek. omega (arith, length-append ek.0 (zeros 1120), ek.1, length-zeros 1120);
  ct_length = λ ek m. length-sized 1088 m;
  ct_bytes = λ ek m. sized-IsBytes 1088 m;
  decapsulates = λ dk m. refl;
}

dsa_documented : IsMlDsa toy_dsa
dsa_documented = record {
  encoded_vk_array = λ bytes. refl;
  encoded_sig_array = λ bytes. refl;
  sk_seed = array-long 32;
  sk_restored = array-eta 32;
  seed_length = λ sk. sk.1;
  vk_restored = λ vk. starts-bit vk (zeros 1951);
  vk_length = λ vk. ap suc (length-zeros 1951);
  vk_bytes = λ vk. (bit-IsByte vk, zeros-IsBytes 1951);
  sig_restored = λ s. ap some (starts-bit s (zeros 3308));
  sig_length = λ s. ap suc (length-zeros 3308);
  sig_bytes = λ s. (bit-IsByte s, zeros-IsBytes 3308);
  verifies = λ sk msg. agree_refl (starts sk.0);
}

pub documented : IsDocumented toy_crates
documented = record {
  ml_kem = kem_documented;
  ml_dsa = dsa_documented;
  aes_gcm = λ key nonce aad pt. record {
    ct = zeros 16 ++ pt;
    encrypts = refl;
    decrypts = ap some (drop-append 16 (zeros 16) pt (length-zeros 16));
    ct_length = omega (arith, length-append (zeros 16) pt, length-zeros 16);
    ct_bytes = λ h. All-append IsByte (zeros 16) pt (zeros-IsBytes 16) h;
  };
}

v1-IsCorrect_example : IsCorrect (v1 toy_crates)
v1-IsCorrect_example = v1-IsCorrect toy_crates documented

-- A signing key and a KEM key from their bytes.
abbrev dk : Array 64
dk = array 64 (1 ∷ zeros 63)

-- What a client with that signing key sends to the server with that KEM key.
abbrev config : ClientConfig (v1 toy_crates)
config = record {
  sig_secret = array 32 (2 ∷ zeros 31);
  client_pk = sig_public toy_crates (array 32 (2 ∷ zeros 31));
}

pub typed : IsTyped (replicate 16 7) 5000 (replicate 32 50)
typed = record {
  src_ip_long = refl;
  src_ip_bytes = omega arith;
  ts_word = omega arith;
  nonce_long = refl;
  nonce_bytes = omega arith;
}

client_frames-IsSendable_example :
    (client_zero_rtt
        (v1 toy_crates)
        toy_blake3
        config
        (kem_public toy_crates dk)
        (replicate 16 7)
        5000
        (zeros 32)
        (replicate 32 50)
        (104 ∷ 105 ∷ [])
      ≡ ok (
        zero_rtt_frame toy_crates documented toy_blake3 config dk 5000
            (replicate 16 7)
            (zeros 32)
            (replicate 32 50)
            (104 ∷ 105 ∷ []),
        (made toy_crates documented toy_blake3 config dk 5000
            (replicate 16 7)
            (zeros 32)
            (replicate 32 50)
            (104 ∷ 105 ∷ [])).1,
      ))
    × (client_one_rtt_finish
          (v1 toy_crates)
          toy_blake3
          config
          (kem_public toy_crates dk)
          (replicate 16 7)
          5000
          (zeros 32)
          (replicate 32 50)
          (104 ∷ 105 ∷ [])
        ≡ ok (
          data_frame toy_crates documented toy_blake3 config dk 5000
              (replicate 16 7)
              (zeros 32)
              (replicate 32 50)
              (104 ∷ 105 ∷ []),
          (made toy_crates documented toy_blake3 config dk 5000
              (replicate 16 7)
              (zeros 32)
              (replicate 32 50)
              (104 ∷ 105 ∷ [])).1,
        ))
    × IsSendable (
        zero_rtt_frame toy_crates documented toy_blake3 config dk 5000
          (replicate 16 7)
          (zeros 32)
          (replicate 32 50)
          (104 ∷ 105 ∷ []))
    × IsSendable (
        data_frame toy_crates documented toy_blake3 config dk 5000
          (replicate 16 7)
          (zeros 32)
          (replicate 32 50)
          (104 ∷ 105 ∷ []))
    × IsSendable (client_one_rtt_hello (v1 toy_crates) config)
client_frames-IsSendable_example =
    client_frames-IsSendable toy_crates documented toy_blake3 config dk 5000 (replicate 16 7)
      (zeros 32) (replicate 32 50) (104 ∷ 105 ∷ []) refl typed (omega arith) (omega arith)
