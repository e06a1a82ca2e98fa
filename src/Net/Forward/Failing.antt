-- ===== src/Net/Forward/Failing.antt =====
-- The pumps of a connection that may fail at any operation: what they have passed on when they stop,
-- wherever that is.
pub mod Delivers
pub mod Through
use ort.Prelude.{
  ℕ, zero, suc, ◌≡◌, ◌≤◌, refl, sym, ap, ◌∙◌, List, [], ◌∷◌, ◌++◌, append_assoc, append-nil, Option,
  none, some, Result, ok, err, length, All, All-append_left, All-append_right, IsByte, IsBytes, inl,
  inr, Result-cases, arith,
}
use mathlib.Core.Path.{subst}
use ort.Core.Suite.Cipher.{CipherSuite, Blake3, IsCorrect, IsCompact}
use ort.Core.Pool.{Direction, dir_byte}
use ort.Core.Record.{RecordLayer, seal, open_record}
use ort.Core.Record.Peers.{InStep, open-seal}
use ort.Proto.Messages.Frames.{Frame, data_record, close, encode}
use ort.Net.Stream.{Stream, IsOrdered}
use ort.Net.Transport.{write_frame, shutdown}
use ort.Net.Transport.Failing.{write_frame-part}
use ort.Net.Session.Wire.{on_wire}
use ort.Net.Forward.{chunk_len, Up, Down, read_plain, seal_chunk, write_up, finish_up, up_chunk, up}
use ort.Net.Forward.Chunks.{IsUndisturbed, Sealed, texts, wire, IsShort, chunk-IsSendable}

-- The first list is the front of the second.
abbrev pub IsFront : List ℕ → List ℕ → Type 0
IsFront xs ys = (rest : List ℕ) × (ys ≡ xs ++ rest)

module _ (S : CipherSuite) (B : Blake3) (I : Stream) (compact : IsCompact S) (c : IsOrdered I)
    (d : Direction) where
  -- A front of `text` went from the layer `a` into chunks, and a front of these onto the wire.
  pub record PumpedPart (a : RecordLayer S B) (text : List ℕ) (w w' : I.Writer) : Type 0 where
    pub chunks : List (List ℕ × List ℕ)
    pub sealed : Sealed S B d a chunks
    pub texts_read : IsFront (texts S B chunks) text
    pub part : List ℕ
    pub written : c.sent w' ≡ c.sent w ++ part
    pub of_wire : IsFront part (wire S B d chunks)
    pub short : All (IsShort S B d) chunks

  -- Nothing was passed on, or a part of the closing frame.
  no_chunk :
      (a : RecordLayer S B) (text : List ℕ) (w w' : I.Writer) (part : List ℕ)
      → c.sent w' ≡ c.sent w ++ part
      → IsFront part (on_wire close)
      → PumpedPart a text w w'
  no_chunk a text w w' part written front = record {
    chunks = [];
    sealed = tt;
    texts_read = (text, refl);
    part = part;
    written = written;
    of_wire = front;
    short = tt;
  }

  nothing : (a : RecordLayer S B) (text : List ℕ) (w : I.Writer) → PumpedPart a text w w
  nothing a text w = no_chunk a text w w [] (sym (append-nil (c.sent w))) (on_wire close, refl)

  finish_up-part :
      (a : RecordLayer S B) (text : List ℕ) (u : Up S B I)
      → PumpedPart a text u.writer (finish_up S B I d u).1.writer
  unfolding finish_up shutdown
  finish_up-part a text u =
      let (part, left, split, written, _) = write_frame-part I c u.writer (encode close) in
      no_chunk a text u.writer _ part (c.shuts (write_frame I (encode close) u.writer).1 ∙ written)
        (left, split)

  module _ (others : ℕ → RecordLayer S B → RecordLayer S B)
      (undisturbed : IsUndisturbed S B d others) where
    abbrev Parts : ℕ → Type 0
    Parts n =
        (u : Up S B I)
        → IsBytes (c.pending u.plain)
        → PumpedPart u.layer (c.pending u.plain) u.writer (up S B I d others n u).1.writer

    up_chunk-part :
        (n : ℕ)
        → Parts n
        → (chunk : List ℕ) (u : Up S B I) → IsBytes (chunk ++ c.pending u.plain)
        → length chunk ≤ chunk_len
        → PumpedPart u.layer
            (chunk ++ c.pending u.plain)
            u.writer
            (up_chunk S B I d (others n) (up S B I d others n) chunk u).1.writer
    unfolding up_chunk seal_chunk write_up
    up_chunk-part n ih [] u bytes fits = finish_up-part u.layer (c.pending u.plain) u
    up_chunk-part n ih (x ∷ xs) u bytes fits =
        let l = others n u.layer in
        let chunk = x ∷ xs in
        let (ct, l') = seal S B d chunk l in
        let frame = data_record (dir_byte d) ct in
        let w = (write_frame I (encode frame) u.writer).1 in
        let (part, left, split, written, whole) = write_frame-part I c u.writer (encode frame) in
        let sendable =
          chunk-IsSendable S B compact d chunk l
            (All-append_left IsByte chunk (c.pending u.plain) bytes) fits in
        elim (Result-cases (write_frame I (encode frame) u.writer).0) [
          | inr (e, failed) ↦ rw failed (record {
            chunks = (chunk, ct) ∷ [];
            sealed = (l, undisturbed n u.layer, refl, tt);
            texts_read =
                (c.pending u.plain, ap (λ t. t ++ c.pending u.plain) (sym (append-nil chunk)));
            part = part;
            written = written;
            of_wire = (
              left ++ on_wire close,
              ap (λ f. f ++ on_wire close) split ∙ append_assoc part left (on_wire close),
            );
            short = (sendable, tt);
          })
          | inl (_, done) ↦
              let next : Up S B I = record { plain = u.plain; writer = w; layer = l' } in
              let p = ih next (All-append_right IsByte chunk (c.pending u.plain) bytes) in
              let full : on_wire frame ≡ part =
                split ∙ ap (λ x. part ++ x) (whole done) ∙ append-nil part in
              rw done (record {
                chunks = (chunk, ct) ∷ p.chunks;
                sealed = (l, undisturbed n u.layer, refl, p.sealed);
                texts_read = (
                  p.texts_read.0,
                  ap (λ t. chunk ++ t) p.texts_read.1
                      ∙ sym (append_assoc chunk (texts S B p.chunks) p.texts_read.0),
                );
                part = part ++ p.part;
                written =
                    p.written
                    ∙ ap (λ s. s ++ p.part) written
                    ∙ append_assoc (c.sent u.writer) part p.part;
                of_wire = (
                  p.of_wire.0,
                  ap (λ f. f ++ wire S B d p.chunks) full
                      ∙ ap (λ x. part ++ x) p.of_wire.1
                      ∙ sym (append_assoc part p.part p.of_wire.0),
                );
                short = (sendable, p.short);
              })
        ]

    -- Wherever the pump stops, and whatever fails.
    pub up-part : (n : ℕ) → Parts n
    unfolding up read_plain
    up-part zero u bytes = nothing u.layer (c.pending u.plain) u.writer
    up-part (suc n) u bytes =
        let (taken, split, known) = c.reads u.plain chunk_len in
        let r = (I.read chunk_len u.plain).1 in
        elim (Result-cases (I.read chunk_len u.plain).0) [
          | inr (e, failed) ↦ rw failed (nothing u.layer (c.pending u.plain) u.writer)
          | inl (chunk, got) ↦
              let (is, fits) = known chunk got in
              let all : c.pending u.plain ≡ chunk ++ c.pending r =
                split ∙ ap (λ x. x ++ c.pending r) (sym is) in
              rw got (
                subst
                  (λ t.
                    PumpedPart u.layer t u.writer
                      (up_chunk S B I d (others n) (up S B I d others n) chunk
                        (record u { plain = r })).1.writer)
                  (sym all)
                  (up_chunk-part n (up-part n) chunk (record u { plain = r })
                    (subst IsBytes all bytes) fits))
        ]
