-- ===== src/Core/Pool/Directions.antt =====
-- The two directions of a pool: reading and writing one of them.
use ort.Prelude.{◌≡◌, refl}
use ort.Core.Suite.Cipher.{Blake3}
use ort.Core.Pool.{
  Direction, client_to_server, server_to_client, flip, DirPool, EntropyPool, dir_pool, set_dir_pool,
  counter,
}

pub flip-flip : (d : Direction) → flip (flip d) ≡ d
unfolding flip
flip-flip client_to_server = refl
flip-flip server_to_client = refl

module _ (B : Blake3) where
  pub dir_pool-set_self :
      (d : Direction) (x : DirPool B) (p : EntropyPool B) → dir_pool B d (set_dir_pool B d x p) ≡ x
  unfolding dir_pool set_dir_pool
  dir_pool-set_self client_to_server x p = refl
  dir_pool-set_self server_to_client x p = refl

  pub dir_pool-set_flip :
      (d : Direction) (x : DirPool B) (p : EntropyPool B)
      → dir_pool B (flip d) (set_dir_pool B d x p) ≡ dir_pool B (flip d) p
  unfolding dir_pool set_dir_pool flip
  dir_pool-set_flip client_to_server x p = refl
  dir_pool-set_flip server_to_client x p = refl

  pub dir_pool-set_other :
      (d : Direction) (x : DirPool B) (p : EntropyPool B)
      → dir_pool B d (set_dir_pool B (flip d) x p) ≡ dir_pool B d p
  unfolding dir_pool set_dir_pool flip
  dir_pool-set_other client_to_server x p = refl
  dir_pool-set_other server_to_client x p = refl

  pub set-set_self :
      (d : Direction) (x y : DirPool B) (p : EntropyPool B)
      → set_dir_pool B d y (set_dir_pool B d x p) ≡ set_dir_pool B d y p
  unfolding set_dir_pool
  set-set_self client_to_server x y p = refl
  set-set_self server_to_client x y p = refl

  pub set-set_flip :
      (d : Direction) (x y : DirPool B) (p : EntropyPool B)
      → set_dir_pool B (flip d) y (set_dir_pool B d x p)
        ≡ set_dir_pool B d x (set_dir_pool B (flip d) y p)
  unfolding set_dir_pool flip
  set-set_flip client_to_server x y p = refl
  set-set_flip server_to_client x y p = refl

  pub counter-dir_pool :
      (d : Direction) (p : EntropyPool B) → counter B d p ≡ (dir_pool B d p).counter
  unfolding counter dir_pool
  counter-dir_pool client_to_server p = refl
  counter-dir_pool server_to_client p = refl
