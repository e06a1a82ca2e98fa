-- ===== src/Net/Forward/Chunks.antt =====
-- What the pumps of crates/ort-net/src/forward.rs put on the tunnel: sealed chunks, each in its frame,
-- and the closing frame.
use ort.Prelude.{
  ℕ, ◌+◌, ◌≡◌, ◌≤◌, refl, sym, ap, ◌∙◌, List, [], ◌∷◌, ◌++◌, append_assoc, length, IsByte, IsBytes,
  arith,
}
use ort.Core.Suite.Cipher.{CipherSuite, Blake3, IsCompact, tag_len}
use ort.Core.Pool.{Direction, dir_byte}
use ort.Core.Record.{RecordLayer, seal}
use ort.Core.Record.Peers.{InStep}
use ort.Proto.Messages.Frames.{data_record, close}
use ort.Proto.Messages.Layout.{encode-layout, length-field32}
use ort.Net.Session.Wire.{IsSendable, on_wire}
use ort.Net.Forward.{chunk_len}

module _ (S : CipherSuite) (B : Blake3) where
  -- The other pump leaves what this direction needs: the key, and the direction's pool.
  abbrev pub IsUndisturbed : Direction → (ℕ → RecordLayer S B → RecordLayer S B) → Type 0
  IsUndisturbed d others = (n : ℕ) (l : RecordLayer S B) → InStep S B d (others n l) l

  -- Chunks and their records, sealed one after the other from the layer `a`.
  abbrev pub Sealed : Direction → RecordLayer S B → List (List ℕ × List ℕ) → Type 0
  Sealed d a [] = Unit
  Sealed d a ((pt, ct) ∷ ps) =
      (b : RecordLayer S B) × InStep S B d b a
      × (ct ≡ (seal S B d pt b).0)
      × Sealed d (seal S B d pt b).1 ps

  abbrev pub texts : List (List ℕ × List ℕ) → List ℕ
  texts [] = []
  texts ((pt, ct) ∷ ps) = pt ++ texts ps

  -- The records as frames, and the closing frame.
  abbrev pub wire : Direction → List (List ℕ × List ℕ) → List ℕ
  wire d [] = on_wire close
  wire d ((pt, ct) ∷ ps) = on_wire (data_record (dir_byte d) ct) ++ wire d ps

  abbrev pub records : Direction → List (List ℕ × List ℕ) → List ℕ
  records d [] = []
  records d ((pt, ct) ∷ ps) = on_wire (data_record (dir_byte d) ct) ++ records d ps

  pub wire-records :
      (d : Direction) (ps : List (List ℕ × List ℕ)) → wire d ps ≡ records d ps ++ on_wire close
  wire-records d [] = refl
  wire-records d ((pt, ct) ∷ ps) =
      let front = on_wire (data_record (dir_byte d) ct) in
      ap (λ x. front ++ x) (wire-records d ps)
      ∙ sym (append_assoc front (records d ps) (on_wire close))

  abbrev pub IsShort : Direction → (List ℕ × List ℕ) → Type 0
  IsShort d (pt, ct) = IsSendable (data_record (dir_byte d) ct)

  dir_byte-IsByte : (d : Direction) → IsByte (dir_byte d)
  unfolding dir_byte
  dir_byte-IsByte Direction.client_to_server = omega arith
  dir_byte-IsByte Direction.server_to_client = omega arith

  pub chunk-IsSendable :
      (compact : IsCompact S) (d : Direction) (pt : List ℕ) (l : RecordLayer S B)
      → IsBytes pt
      → length pt ≤ chunk_len
      → IsSendable (data_record (dir_byte d) (seal S B d pt l).0)
  unfolding seal
  chunk-IsSendable compact d pt l bytes short =
      let ct = (seal S B d pt l).0 in
      let limit : length ct ≤ length pt + tag_len = compact.sealed_length _ _ _ pt in
      (
        (dir_byte-IsByte d, omega arith, compact.sealed_bytes _ _ _ pt bytes),
        rw (encode-layout (data_record (dir_byte d) ct)) (omega (arith, length-field32 ct)),
      )

  pub close-IsSendable : IsSendable close
  close-IsSendable = (tt, rw (encode-layout close) (omega arith))
