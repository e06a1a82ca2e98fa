-- ===== src/Core/Record/OneDirection.antt =====
-- The record layer touches one direction of the pool at a time: `seal` and `open_record` as
-- functions of that direction, and runs of records in one direction.
use ort.Prelude.{ℕ, ◌≡◌, refl, List, [], ◌∷◌, ◌++◌, ok, err}
use ort.Core.Error.{CoreResult}
use ort.Core.Suite.Cipher.{CipherSuite, Blake3, IsCorrect}
use ort.Core.Pool
use ort.Core.Pool.{
  Direction, client_to_server, server_to_client, DirPool, dir_pool, set_dir_pool, next_nonce_dir,
  absorb_dir,
}
use ort.Core.Pool.Directions.{counter-dir_pool}
use ort.Core.Record.{RecordLayer, opened, record_aad, seal, open_record}

module _ (S : CipherSuite) (B : Blake3) where
  unfoldable pub seal_dir : List ℕ → Direction → List ℕ → DirPool B → List ℕ × DirPool B
  seal_dir key dir plaintext p =
      let (nonce, p') = next_nonce_dir B p in
      let ct = S.aead_seal key nonce (record_aad dir p.counter) plaintext in
      (ct, absorb_dir B ct p')

  abbrev pub opened_dir : List ℕ → DirPool B → CoreResult (List ℕ) → CoreResult (List ℕ) × DirPool B
  opened_dir ciphertext p (ok pt) = (ok pt, absorb_dir B ciphertext p)
  opened_dir ciphertext p (err e) = (err e, p)

  unfoldable pub open_dir :
      List ℕ → Direction → List ℕ → DirPool B → CoreResult (List ℕ) × DirPool B
  open_dir key dir ciphertext p =
      let (nonce, p') = next_nonce_dir B p in
      opened_dir ciphertext p' (S.aead_open key nonce (record_aad dir p.counter) ciphertext)

  -- The record layer `l` with the pool of one direction replaced.
  abbrev pub with_dir : Direction → DirPool B → RecordLayer S B → RecordLayer S B
  with_dir d p l = record l { pool = set_dir_pool B d p l.pool }

  pub seal-seal_dir :
      (d : Direction) (pt : List ℕ) (l : RecordLayer S B)
      → seal S B d pt l
        ≡ (let (ct, p) = seal_dir l.keys.enc_key d pt (dir_pool B d l.pool) in (ct, with_dir d p l))
  unfolding seal seal_dir Pool.next_nonce Pool.absorb Pool.counter
  seal-seal_dir client_to_server pt l = refl
  seal-seal_dir server_to_client pt l = refl

  opened-opened_dir :
      (d : Direction) (ct : List ℕ) (l : RecordLayer S B) (p : DirPool B) (r : CoreResult (List ℕ))
      → opened S B d ct (with_dir d p l) r
        ≡ (let (r', p') = opened_dir ct p r in (r', with_dir d p' l))
  unfolding opened Pool.absorb
  opened-opened_dir client_to_server ct l p (ok pt) = refl
  opened-opened_dir server_to_client ct l p (ok pt) = refl
  opened-opened_dir d ct l p (err e) = refl

  pub open-open_dir :
      (d : Direction) (ct : List ℕ) (l : RecordLayer S B)
      → open_record S B d ct l
        ≡ (let (r, p) = open_dir l.keys.enc_key d ct (dir_pool B d l.pool) in (r, with_dir d p l))
  unfolding open_record open_dir Pool.next_nonce
  open-open_dir d ct l = rw counter-dir_pool (opened-opened_dir d ct l _ _)

  -- A peer whose pool is the sender's opens what the sender sealed, and its pool is the sender's
  -- again.
  pub open-seal_dir :
      (c : IsCorrect S) (key : List ℕ) (d : Direction) (pt : List ℕ) (p : DirPool B)
      → open_dir key d (seal_dir key d pt p).0 p ≡ (ok pt, (seal_dir key d pt p).1)
  unfolding open_dir seal_dir
  open-seal_dir c key d pt p = rw c.aead_correct

  -- Several records, one after the other.
  unfoldable pub seal_all :
      List ℕ → Direction → List (List ℕ) → DirPool B → List (List ℕ) × DirPool B
  seal_all key d [] p = ([], p)
  seal_all key d (pt ∷ pts) p =
      let (ct, p1) = seal_dir key d pt p in let (cts, p2) = seal_all key d pts p1 in (ct ∷ cts, p2)

  pub seal_all-append :
      (key : List ℕ) (d : Direction) (pts : List (List ℕ)) (pt : List ℕ) (p : DirPool B)
      → seal_all key d (pts ++ (pt ∷ [])) p ≡ (
          let (cts, p1) = seal_all key d pts p in
          let (ct, p2) = seal_dir key d pt p1 in (cts ++ (ct ∷ []), p2))
  unfolding seal_all
  seal_all-append key d [] pt p = refl
  seal_all-append key d (q ∷ pts) pt p = rw (seal_all-append key d pts pt (seal_dir key d q p).1)
