-- ===== src/Proto/Messages/Payload.antt =====
-- `KemPayload` of crates/ort-proto/src/messages.rs. The arrays `[u8; 16]` and `[u8; 32]` are lists;
-- `IsPayload` says what the Rust type says.
use ort.Prelude.{ℕ, ◌≡◌, List, IsBytes, IsU16, IsU32, IsU64, length}
use ort.Proto.Codec.Writer
use ort.Proto.Codec.Writer.{Writer, ◌▹◌}
use ort.Proto.Codec.Reader
use ort.Proto.Codec.Reader.{Parser, ◌>>=◌, pure}

pub record KemPayload : Type 0 where
  pub ciphertext : List ℕ
  pub src_ip : List ℕ
  pub ts_millis : ℕ
  pub nonce : List ℕ
  pub client_sig : List ℕ
  pub enc_data : List ℕ

unfoldable pub write : KemPayload → Writer → Writer
write p w =
    w
    ▹ Writer.bytes16 p.ciphertext
    ▹ Writer.raw p.src_ip
    ▹ Writer.u64 p.ts_millis
    ▹ Writer.raw p.nonce
    ▹ Writer.bytes16 p.client_sig
    ▹ Writer.bytes32 p.enc_data

unfoldable pub read : Parser KemPayload
read = do
  ciphertext ← Reader.bytes16
  src_ip ← Reader.array 16
  ts_millis ← Reader.u64
  nonce ← Reader.array 32
  client_sig ← Reader.bytes16
  enc_data ← Reader.bytes32
  pure (record {
    ciphertext = ciphertext;
    src_ip = src_ip;
    ts_millis = ts_millis;
    nonce = nonce;
    client_sig = client_sig;
    enc_data = enc_data;
  })

-- The Rust types of the fields, and variable fields that fit their length prefix.
pub record IsPayload (p : KemPayload) : Type 0 where
  pub ciphertext_fits : IsU16 (length p.ciphertext)
  pub ciphertext_bytes : IsBytes p.ciphertext
  pub src_ip_long : length p.src_ip ≡ 16
  pub src_ip_bytes : IsBytes p.src_ip
  pub ts_word : IsU64 p.ts_millis
  pub nonce_long : length p.nonce ≡ 32
  pub nonce_bytes : IsBytes p.nonce
  pub sig_fits : IsU16 (length p.client_sig)
  pub sig_bytes : IsBytes p.client_sig
  pub enc_data_fits : IsU32 (length p.enc_data)
  pub enc_data_bytes : IsBytes p.enc_data
