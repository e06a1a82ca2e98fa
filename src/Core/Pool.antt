-- ===== src/Core/Pool.antt =====
-- crates/ort-core/src/pool.rs: the entropy pool, one keyed hasher and one counter a direction. The
-- crate `blake3` is the parameter `B`. `Zeroize` is not modelled.
pub mod Directions
use ort.Prelude.{ℕ, ◌+◌, ◌%◌, ◌^◌, List, be_bytes, ascii}
use ort.Core.Suite.Cipher.{Blake3, nonce_len}

pub data Direction : Type 0 where
  client_to_server server_to_client : Direction

-- `dir as u8`
unfoldable pub dir_byte : Direction → ℕ
dir_byte client_to_server = 0
dir_byte server_to_client = 1

unfoldable pub flip : Direction → Direction
flip client_to_server = server_to_client
flip server_to_client = client_to_server

unfoldable pub label : Direction → List ℕ
label client_to_server = ascii "ORT-v1 pool c2s"
label server_to_client = ascii "ORT-v1 pool s2c"

module _ (B : Blake3) where
  pub record DirPool : Type 0 where
    pub state : B.Hasher
    pub counter : ℕ

  -- `DirPool::new`
  unfoldable pub new_dir_pool : List ℕ → Direction → List ℕ → DirPool
  new_dir_pool pool_key dir seed = record {
    state = B.update (B.update (B.new_keyed pool_key) (label dir)) seed;
    counter = 0;
  }

  -- `DirPool::next_nonce`. The hasher is cloned, so the state stays; the counter wraps in a release
  -- build.
  unfoldable pub next_nonce_dir : DirPool → List ℕ × DirPool
  next_nonce_dir p =
      let h = B.update p.state (be_bytes 8 p.counter) in
      (B.finalize_xof h nonce_len, record p { counter = (p.counter + 1) % 2 ^ 64 })

  -- `DirPool::absorb`
  unfoldable pub absorb_dir : List ℕ → DirPool → DirPool
  absorb_dir bytes p = record p {
    state = B.update (B.update p.state (ascii "ORT-v1 absorb")) bytes;
  }

  pub record EntropyPool : Type 0 where
    pub c2s : DirPool
    pub s2c : DirPool

  unfoldable pub new : List ℕ → List ℕ → EntropyPool
  unfolding new_dir_pool label
  new pool_key connmeta_nonce = record {
    c2s = new_dir_pool pool_key client_to_server connmeta_nonce;
    s2c = new_dir_pool pool_key server_to_client connmeta_nonce;
  }

  -- `&mut self.dir(dir)`, read and written.
  unfoldable pub dir_pool : Direction → EntropyPool → DirPool
  dir_pool client_to_server p = p.c2s
  dir_pool server_to_client p = p.s2c

  unfoldable pub set_dir_pool : Direction → DirPool → EntropyPool → EntropyPool
  set_dir_pool client_to_server d p = record p { c2s = d }
  set_dir_pool server_to_client d p = record p { s2c = d }

  unfoldable pub next_nonce : Direction → EntropyPool → List ℕ × EntropyPool
  unfolding dir_pool set_dir_pool next_nonce_dir
  next_nonce dir p =
      let (nonce, d) = next_nonce_dir (dir_pool dir p) in (nonce, set_dir_pool dir d p)

  unfoldable pub absorb : Direction → List ℕ → EntropyPool → EntropyPool
  unfolding dir_pool set_dir_pool absorb_dir
  absorb dir ciphertext p = set_dir_pool dir (absorb_dir ciphertext (dir_pool dir p)) p

  unfoldable pub counter : Direction → EntropyPool → ℕ
  counter client_to_server p = p.c2s.counter
  counter server_to_client p = p.s2c.counter
