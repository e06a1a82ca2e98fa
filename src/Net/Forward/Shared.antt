-- ===== src/Net/Forward/Shared.antt =====
-- The record layer of an end is shared by its two pumps. Whatever the pump of one direction does to
-- it, the other direction's key and pool stay.
use ort.Prelude.{ℕ, refl, ◌∙◌, ap, List, [], ◌∷◌}
use ort.Core.Suite.Cipher.{CipherSuite, Blake3}
use ort.Core.Pool.{Direction, flip, dir_pool}
use ort.Core.Pool.Directions.{dir_pool-set_other}
use ort.Core.Record.{RecordLayer, seal, open_record}
use ort.Core.Record.OneDirection.{seal-seal_dir, open-open_dir}
use ort.Core.Record.Peers.{InStep}
use ort.Net.Forward.Chunks.{IsUndisturbed}

-- One critical section of a pump.
pub data Use : Type 0 where
  seals : List ℕ → Use
  opens : List ℕ → Use

module _ (S : CipherSuite) (B : Blake3) where
  abbrev pub use_layer : Direction → Use → RecordLayer S B → RecordLayer S B
  use_layer d (seals pt) l = (seal S B d pt l).1
  use_layer d (opens ct) l = (open_record S B d ct l).1

  abbrev pub use_all : Direction → List Use → RecordLayer S B → RecordLayer S B
  use_all d [] l = l
  use_all d (u ∷ us) l = use_all d us (use_layer d u l)

  -- What the pump of the other direction does between two rounds of this one, from a schedule.
  abbrev pub scheduled : Direction → (ℕ → List Use) → ℕ → RecordLayer S B → RecordLayer S B
  scheduled d uses n l = use_all (flip d) (uses n) l

  use_layer-InStep :
      (d : Direction) (u : Use) (l : RecordLayer S B) → InStep S B d (use_layer (flip d) u l) l
  use_layer-InStep d (seals pt) l =
      let e = seal-seal_dir S B (flip d) pt l in
      record {
        key = ap (λ x. x.1.keys.enc_key) e;
        pool = ap (λ x. dir_pool B d x.1.pool) e ∙ dir_pool-set_other B d _ l.pool;
      }
  use_layer-InStep d (opens ct) l =
      let e = open-open_dir S B (flip d) ct l in
      record {
        key = ap (λ x. x.1.keys.enc_key) e;
        pool = ap (λ x. dir_pool B d x.1.pool) e ∙ dir_pool-set_other B d _ l.pool;
      }

  use_all-InStep :
      (d : Direction) (us : List Use) (l : RecordLayer S B) → InStep S B d (use_all (flip d) us l) l
  use_all-InStep d [] l = record { key = refl; pool = refl }
  use_all-InStep d (u ∷ us) l =
      let h = use_all-InStep d us (use_layer (flip d) u l) in
      let k = use_layer-InStep d u l in record { key = h.key ∙ k.key; pool = h.pool ∙ k.pool }

  pub scheduled-IsUndisturbed :
      (d : Direction) (uses : ℕ → List Use) → IsUndisturbed S B d (scheduled d uses)
  scheduled-IsUndisturbed d uses n l = use_all-InStep d (uses n) l
