-- ===== src/Core/Record/Peers.antt =====
-- Two peers of a session: what one seals the other opens, the two directions do not disturb each
-- other, and the associated data names the direction and the place of a record.
use ort.Prelude.{ℕ, ◌≡◌, refl, sym, ap, ◌∙◌, List, ok, err, IsU64, be_bytes_injective, arith}
use ort.Core.Error.{Error, CoreResult}
use ort.Core.Suite.Cipher.{CipherSuite, Blake3, IsCorrect}
use ort.Core.Pool.{
  Direction, client_to_server, server_to_client, dir_byte, flip, DirPool, dir_pool, next_nonce_dir,
  set_dir_pool,
}
use ort.Core.Pool.Directions.{dir_pool-set_self}
use ort.Core.Record.{RecordLayer, record_aad, seal, open_record}
use ort.Core.Record.OneDirection.{
  seal_dir, open_dir, with_dir, seal-seal_dir, open-open_dir, open-seal_dir,
}

dir_byte_injective : (d e : Direction) → dir_byte d ≡ dir_byte e → d ≡ e
unfolding dir_byte
dir_byte_injective client_to_server client_to_server p = refl
dir_byte_injective server_to_client server_to_client p = refl
dir_byte_injective client_to_server server_to_client p = absurd (omega arith)
dir_byte_injective server_to_client client_to_server p = absurd (omega arith)

-- Records of different directions, or with different counters below 2^64, have different associated
-- data.
pub record_aad_injective :
    (d e : Direction) (m n : ℕ)
    → IsU64 m
    → IsU64 n
    → record_aad d m ≡ record_aad e n
    → (d ≡ e) × (m ≡ n)
unfolding record_aad
record_aad_injective d e m n hm hn p =
    (dir_byte_injective d e (cc), be_bytes_injective 8 m n hm hn (cc))

module _ (S : CipherSuite) (B : Blake3) where
  -- The receiving side of direction `d` is where the sending side is.
  pub record InStep (d : Direction) (a b : RecordLayer S B) : Type 0 where
    pub key : a.keys.enc_key ≡ b.keys.enc_key
    pub pool : dir_pool B d a.pool ≡ dir_pool B d b.pool

  pub InStep-trans :
      {d : Direction} {x y z : RecordLayer S B} → InStep d x y → InStep d y z → InStep d x z
  InStep-trans h k = record { key = h.key ∙ k.key; pool = h.pool ∙ k.pool }

  pub InStep-sym : {d : Direction} {x y : RecordLayer S B} → InStep d x y → InStep d y x
  InStep-sym h = record { key = sym h.key; pool = sym h.pool }

  -- Of two peers that are in step in a direction, one opens what the other sealed, gets the
  -- plaintext, and they are in step again. The suite is correct.
  pub open-seal :
      (c : IsCorrect S) (d : Direction) (pt : List ℕ) (a b : RecordLayer S B)
      → InStep d a b
      → ((open_record S B d (seal S B d pt a).0 b).0 ≡ ok pt)
        × InStep d (seal S B d pt a).1 (open_record S B d (seal S B d pt a).0 b).1
  open-seal c d pt a b h =
      let key = a.keys.enc_key in
      let p = dir_pool B d a.pool in
      let (ct, p') = seal_dir S B key d pt p in
      let opens : open_dir S B b.keys.enc_key d ct (dir_pool B d b.pool) ≡ (ok pt, p') =
        ap (λ k. open_dir S B k d ct (dir_pool B d b.pool)) (sym h.key)
        ∙ ap (λ q. open_dir S B key d ct q) (sym h.pool)
        ∙ open-seal_dir S B c key d pt p in
      rw (seal-seal_dir S B d pt a, open-open_dir, opens)
        (
          refl,
          record {
            key = h.key;
            pool = dir_pool-set_self B d p' a.pool ∙ sym (dir_pool-set_self B d p' b.pool);
          },
        )

  -- The same of a ciphertext that is known by an equation.
  pub open-sealed :
      (c : IsCorrect S) (d : Direction) (pt ct : List ℕ) (a b : RecordLayer S B)
      → ct ≡ (seal S B d pt a).0
      → InStep d a b
      → ((open_record S B d ct b).0 ≡ ok pt)
        × InStep d (seal S B d pt a).1 (open_record S B d ct b).1
  open-sealed c d pt ct a b is h = rw is (open-seal c d pt a b h)

  -- A layer opens what the same layer sealed, and ends as the sealing layer ended.
  pub open-seal_same :
      (c : IsCorrect S) (d : Direction) (pt : List ℕ) (l : RecordLayer S B)
      → open_record S B d (seal S B d pt l).0 l ≡ (ok pt, (seal S B d pt l).1)
  open-seal_same c d pt l =
      rw (seal-seal_dir S B d pt l, open-open_dir)
        (rw (open-seal_dir S B c l.keys.enc_key d pt (dir_pool B d l.pool)))

  abbrev pub seal_then_open :
      Direction → List ℕ → List ℕ → RecordLayer S B → List ℕ × CoreResult (List ℕ) × RecordLayer S B
  seal_then_open d pt ct l =
      let (sealed, l1) = seal S B d pt l in
      let (answer, l2) = open_record S B (flip d) ct l1 in (sealed, answer, l2)

  abbrev pub open_then_seal :
      Direction → List ℕ → List ℕ → RecordLayer S B → List ℕ × CoreResult (List ℕ) × RecordLayer S B
  open_then_seal d pt ct l =
      let (answer, l1) = open_record S B (flip d) ct l in
      let (sealed, l2) = seal S B d pt l1 in (sealed, answer, l2)

  -- Sealing in one direction and opening in the other can be done in either order: the same
  -- ciphertext, the same answer and the same record layer.
  pub seal-open_comm :
      (d : Direction) (pt ct : List ℕ) (l : RecordLayer S B)
      → seal_then_open d pt ct l ≡ open_then_seal d pt ct l
  unfolding dir_pool set_dir_pool flip
  seal-open_comm client_to_server pt ct l = simp (seal-seal_dir, open-open_dir) refl
  seal-open_comm server_to_client pt ct l = simp (seal-seal_dir, open-open_dir) refl

  open_dir_refused :
      (key : List ℕ) (d : Direction) (ct : List ℕ) (p : DirPool B) (e : Error)
      → (open_dir S B key d ct p).0 ≡ err e
      → (open_dir S B key d ct p).1 ≡ (next_nonce_dir B p).1
  unfolding open_dir
  open_dir_refused key d ct p e h = ground arith

  -- A refused record moves its direction's counter on and absorbs nothing; the other direction and
  -- the keys stay.
  pub open_record_refused :
      (d : Direction) (ct : List ℕ) (l : RecordLayer S B) (e : Error)
      → (open_record S B d ct l).0 ≡ err e
      → (open_record S B d ct l).1 ≡ with_dir S B d (next_nonce_dir B (dir_pool B d l.pool)).1 l
  open_record_refused d ct l e h = rw open-open_dir (
      ap (λ p. with_dir S B d p l)
        (open_dir_refused l.keys.enc_key d ct (dir_pool B d l.pool) e (rw open-open_dir at h)))
