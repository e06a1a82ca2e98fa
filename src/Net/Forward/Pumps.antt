-- ===== src/Net/Forward/Pumps.antt =====
-- The pump to the tunnel: what the plain side wrote becomes sealed chunks on the wire.
use ort.Prelude.{
  ℕ, zero, suc, ◌≡◌, ◌≤◌, ◌<◌, refl, sym, ap, ◌∙◌, List, [], ◌∷◌, ◌++◌, append_assoc, Option, some,
  ok, length, length-append, All, All-append_left, All-append_right, IsByte, IsBytes, arith,
}
use mathlib.Core.Path.{subst}
use ort.Core.Suite.Cipher.{CipherSuite, Blake3, IsCompact}
use ort.Core.Pool.{Direction, dir_byte}
use ort.Core.Record.{RecordLayer, seal}
use ort.Proto.Messages.Frames.{data_record, close, encode}
use ort.Net.Error.{OrtError}
use ort.Net.Io.{Io}
use ort.Net.Stream.{Stream, IsReliable}
use ort.Net.Transport.{shutdown}
use ort.Net.Transport.Frames.{write_frame-sent}
use ort.Net.Forward.{chunk_len, Up, read_plain, seal_chunk, write_up, finish_up, up_chunk, up}
use ort.Net.Forward.Chunks.{IsUndisturbed, Sealed, texts, wire, IsShort, chunk-IsSendable}

module _ (S : CipherSuite) (B : Blake3) (I : Stream) (compact : IsCompact S) (c : IsReliable I)
    (d : Direction) where
  -- `text` went from the layer `a` onto the wire in chunks, and the closing frame after it.
  pub record Pumped (a : RecordLayer S B) (text : List ℕ) (w w' : I.Writer) : Type 0 where
    pub chunks : List (List ℕ × List ℕ)
    pub sealed : Sealed S B d a chunks
    pub texts_read : texts S B chunks ≡ text
    pub written : c.sent w' ≡ c.sent w ++ wire S B d chunks
    pub short : All (IsShort S B d) chunks

  abbrev Pumps : Io OrtError (Up S B I) (Option (Unit {0})) → List ℕ → Up S B I → Type 0
  Pumps m text u =
      (u' : Up S B I) × (m u ≡ (ok (some tt), u')) × Pumped u.layer text u.writer u'.writer

  finish_up-Pumps : (u : Up S B I) → Pumps (finish_up S B I d) [] u
  unfolding finish_up shutdown
  finish_up-Pumps u =
      let (w, e, sent) = write_frame-sent I c u.writer (encode close) in
      let (w', e', sent') = c.shuts w in
      (
        record u { writer = w' },
        rw (e, e'),
        record { chunks = []; sealed = tt; texts_read = refl; written = sent' ∙ sent; short = tt },
      )

  module _ (others : ℕ → RecordLayer S B → RecordLayer S B)
      (undisturbed : IsUndisturbed S B d others) where
    up_chunk-Pumps :
        (n : ℕ)
        → ((u : Up S B I)
            → length (c.pending u.plain) < n
            → IsBytes (c.pending u.plain)
            → Pumps (up S B I d others n) (c.pending u.plain) u)
        → (chunk : List ℕ) (u : Up S B I) → length (chunk ++ c.pending u.plain) < suc n
        → IsBytes (chunk ++ c.pending u.plain)
        → length chunk ≤ chunk_len
        → (chunk ≡ [] → chunk ++ c.pending u.plain ≡ [])
        → Pumps
            (up_chunk S B I d (others n) (up S B I d others n) chunk)
            (chunk ++ c.pending u.plain)
            u
    unfolding up_chunk seal_chunk write_up
    up_chunk-Pumps n ih [] u fuel bytes fits ends = rw (ends refl) (finish_up-Pumps u)
    up_chunk-Pumps n ih (x ∷ xs) u fuel bytes fits ends =
        let l = others n u.layer in
        let chunk = x ∷ xs in
        let (ct, l') = seal S B d chunk l in
        let (w, e, sent) = write_frame-sent I c u.writer (encode (data_record (dir_byte d) ct)) in
        let next : Up S B I = record { plain = u.plain; writer = w; layer = l' } in
        let (u', done, p) =
          ih next (omega (arith, length-append xs (c.pending u.plain)))
            (All-append_right IsByte xs (c.pending u.plain) bytes.1) in
        (
          u',
          rw (e, done),
          record {
            chunks = (chunk, ct) ∷ p.chunks;
            sealed = (l, undisturbed n u.layer, refl, p.sealed);
            texts_read = ap (λ t. chunk ++ t) p.texts_read;
            written =
                p.written
                ∙ ap (λ s. s ++ wire S B d p.chunks) sent
                ∙ append_assoc (c.sent u.writer) _ (wire S B d p.chunks);
            short = (
              chunk-IsSendable S B compact d chunk l
                  (All-append_left IsByte chunk (c.pending u.plain) bytes) fits,
              p.short,
            );
          },
        )

    -- With fuel for every byte and one round more, the pump ends, and what was to be read has been
    -- pumped.
    pub up-Pumps :
        (n : ℕ) (u : Up S B I)
        → length (c.pending u.plain) < n
        → IsBytes (c.pending u.plain)
        → Pumps (up S B I d others n) (c.pending u.plain) u
    unfolding up read_plain
    up-Pumps zero u fuel bytes = absurd (omega arith)
    up-Pumps (suc n) u fuel bytes =
        let (chunk, r', e, split, fits, ends) = c.reads u.plain chunk_len (omega arith) in
        let v : Up S B I = record u { plain = r' } in
        let (u', done, p) =
          up_chunk-Pumps n (up-Pumps n) chunk v (subst (λ t. length t < suc n) split fuel)
            (subst IsBytes split bytes) fits (λ z. sym split ∙ ends z) in
        (u', rw (e, done), subst (λ t. Pumped u.layer t u.writer u'.writer) (sym split) p)
