-- ===== src/Net/Forward/Steady/Ups.antt =====
-- The pump to the tunnel, after any number of rounds.
use ort.Prelude.{
  ℕ, zero, suc, ◌≡◌, ◌≤◌, refl, sym, ap, ◌∙◌, List, [], ◌∷◌, ◌++◌, append_assoc, append-nil, Option,
  none, some, ok, length, All, All-append_left, All-append_right, IsByte, IsBytes, ◌⊎◌, inl, inr,
  arith,
}
use mathlib.Core.Path.{subst}
use ort.Core.Suite.Cipher.{CipherSuite, Blake3, IsCompact}
use ort.Core.Pool.{Direction, dir_byte}
use ort.Core.Record.{RecordLayer, seal}
use ort.Proto.Messages.Frames.{data_record, close, encode}
use ort.Net.Error.{OrtError, OrtResult}
use ort.Net.Io.{Io}
use ort.Net.Stream.{Stream, IsReliable}
use ort.Net.Transport.{shutdown}
use ort.Net.Transport.Frames.{write_frame-sent}
use ort.Net.Session.Wire.{on_wire}
use ort.Net.Forward.{chunk_len, Up, read_plain, seal_chunk, write_up, finish_up, up_chunk, up}
use ort.Net.Forward.Chunks.{IsUndisturbed, Sealed, texts, records, IsShort, chunk-IsSendable}

module _ (S : CipherSuite) (B : Blake3) (I : Stream) (compact : IsCompact S) (c : IsReliable I)
    (d : Direction) where
  -- Where the pump is, with what of `text` it has sealed and what came behind the records: nothing
  -- as long as it runs, and the closing frame, with all of the text before it, where it has ended.
  abbrev pub Stands : OrtResult (Option (Unit {0})) → List ℕ → List ℕ → List ℕ → Type 0
  Stands r tail sealed_text text =
      ((r ≡ ok none) × (tail ≡ []))
      ⊎ ((r ≡ ok (some tt)) × (tail ≡ on_wire close) × (sealed_text ≡ text))

  pub record Steady (a : RecordLayer S B) (text : List ℕ) (r : OrtResult (Option (Unit {0})))
      (w w' : I.Writer) : Type 0 where
    pub chunks : List (List ℕ × List ℕ)
    pub sealed : Sealed S B d a chunks
    pub short : All (IsShort S B d) chunks
    pub tail : List ℕ
    pub written : c.sent w' ≡ c.sent w ++ (records S B d chunks ++ tail)
    pub stands : Stands r tail (texts S B chunks) text

  abbrev IsSteady : Io OrtError (Up S B I) (Option (Unit {0})) → List ℕ → Up S B I → Type 0
  IsSteady m text u = Steady u.layer text (m u).0 u.writer (m u).1.writer

  finish_up-IsSteady : (u : Up S B I) → IsSteady (finish_up S B I d) [] u
  unfolding finish_up shutdown
  finish_up-IsSteady u =
      let (w, e, sent) = write_frame-sent I c u.writer (encode close) in
      let (w', e', sent') = c.shuts w in
      rw (e, e')
        (record {
          chunks = [];
          sealed = tt;
          short = tt;
          tail = on_wire close;
          written = sent' ∙ sent;
          stands = inr (refl, refl, refl);
        })

  more-Stands :
      (r : OrtResult (Option (Unit {0}))) (tail chunk sealed_text text : List ℕ)
      → Stands r tail sealed_text text
      → Stands r tail (chunk ++ sealed_text) (chunk ++ text)
  more-Stands r tail chunk sealed_text text (inl h) = inl h
  more-Stands r tail chunk sealed_text text (inr (done, closed, all)) =
      inr (done, closed, ap (λ x. chunk ++ x) all)

  module _ (others : ℕ → RecordLayer S B → RecordLayer S B)
      (undisturbed : IsUndisturbed S B d others) where
    up_chunk-IsSteady :
        (n : ℕ)
        → ((u : Up S B I)
            → IsBytes (c.pending u.plain)
            → IsSteady (up S B I d others n) (c.pending u.plain) u)
        → (chunk : List ℕ) (u : Up S B I) → IsBytes (chunk ++ c.pending u.plain)
        → length chunk ≤ chunk_len
        → (chunk ≡ [] → chunk ++ c.pending u.plain ≡ [])
        → IsSteady
            (up_chunk S B I d (others n) (up S B I d others n) chunk)
            (chunk ++ c.pending u.plain)
            u
    unfolding up_chunk seal_chunk write_up
    up_chunk-IsSteady n ih [] u bytes fits ends = rw (ends refl) (finish_up-IsSteady u)
    up_chunk-IsSteady n ih (x ∷ xs) u bytes fits ends =
        let l = others n u.layer in
        let chunk = x ∷ xs in
        let (ct, l') = seal S B d chunk l in
        let front = on_wire (data_record (dir_byte d) ct) in
        let (w, e, sent) = write_frame-sent I c u.writer (encode (data_record (dir_byte d) ct)) in
        let next : Up S B I = record { plain = u.plain; writer = w; layer = l' } in
        let p = ih next (All-append_right IsByte xs (c.pending u.plain) bytes.1) in
        rw e (record {
          chunks = (chunk, ct) ∷ p.chunks;
          sealed = (l, undisturbed n u.layer, refl, p.sealed);
          short = (
            chunk-IsSendable S B compact d chunk l
                (All-append_left IsByte chunk (c.pending u.plain) bytes) fits,
            p.short,
          );
          tail = p.tail;
          written =
              p.written
              ∙ ap (λ s. s ++ (records S B d p.chunks ++ p.tail)) sent
              ∙ append_assoc (c.sent u.writer) front (records S B d p.chunks ++ p.tail)
              ∙ ap (λ s. c.sent u.writer ++ s)
                  (sym (append_assoc front (records S B d p.chunks) p.tail));
          stands = more-Stands _ p.tail chunk _ _ p.stands;
        })

    -- After any number of rounds.
    pub up-IsSteady :
        (n : ℕ) (u : Up S B I)
        → IsBytes (c.pending u.plain)
        → IsSteady (up S B I d others n) (c.pending u.plain) u
    unfolding up read_plain
    up-IsSteady zero u bytes = record {
      chunks = [];
      sealed = tt;
      short = tt;
      tail = [];
      written = sym (append-nil (c.sent u.writer));
      stands = inl (refl, refl);
    }
    up-IsSteady (suc n) u bytes =
        let (chunk, r', e, split, fits, ends) = c.reads u.plain chunk_len (omega arith) in
        let v : Up S B I = record u { plain = r' } in
        let m = up_chunk S B I d (others n) (up S B I d others n) chunk in
        let p : IsSteady m (chunk ++ c.pending r') v =
          up_chunk-IsSteady n (up-IsSteady n) chunk v (subst IsBytes split bytes) fits
            (λ z. sym split ∙ ends z) in
        rw e (subst (λ t. IsSteady m t v) (sym split) p)
