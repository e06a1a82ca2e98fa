-- ===== src/Net/Forward/Failing/Delivers.antt =====
-- The pump from the tunnel, where what is to come may be cut anywhere and every operation may fail.
use ort.Prelude.{
  ℕ, zero, suc, ◌≡◌, refl, sym, ap, ◌∙◌, List, [], ◌∷◌, ◌++◌, append_assoc, append-nil, Option,
  some, ok, All, inl, inr, Result-cases, Option-cases, ok_injective,
}
use mathlib.Core.Path.{subst}
use ort.Core.Suite.Cipher.{CipherSuite, Blake3, IsCorrect}
use ort.Core.Pool.{Direction, dir_byte}
use ort.Core.Record.{RecordLayer, seal, open_record}
use ort.Core.Record.Peers.{InStep, InStep-trans, InStep-sym, open-sealed}
use ort.Proto.Messages.Frames.{Frame, data_record, close, encode, decode}
use ort.Proto.Messages.RoundTrip.{decode-encode}
use ort.Net.Error.{OrtResult}
use ort.Net.Io.{◌>>=◌}
use ort.Net.Stream.{Stream, IsOrdered}
use ort.Net.Transport.Failing.{read_frame-part}
use ort.Net.Session.Wire.{IsSendable, on_wire}
use ort.Net.Forward.{Down, read_tunnel, write_plain, finish_down, open_chunk, down_frame, down_loop}
use ort.Net.Forward.Frames.{read_tunnel-some}
use ort.Net.Forward.Chunks.{IsUndisturbed, Sealed, texts, wire, IsShort, close-IsSendable}
use ort.Net.Forward.Failing.{IsFront}

module _ (S : CipherSuite) (B : Blake3) (I : Stream) (c : IsOrdered I) where
  -- Where a frame or a part of it is to come, reading fails, or finds the end, or finds this frame.
  record Heard (frame : Frame) (rest cut : List ℕ) (s : Down S B I) : Type 0 where
    pub same : (read_tunnel S B I s).1.plain ≡ s.plain
    pub same_layer : (read_tunnel S B I s).1.layer ≡ s.layer
    pub found :
        (f : Frame)
        → (read_tunnel S B I s).0 ≡ ok (some f)
        → (f ≡ frame) × (c.pending (read_tunnel S B I s).1.reader ++ cut ≡ rest)

  read_tunnel-Heard :
      (frame : Frame) (rest cut : List ℕ) (s : Down S B I)
      → IsSendable frame
      → c.pending s.reader ++ cut ≡ on_wire frame ++ rest
      → Heard frame rest cut s
  unfolding read_tunnel
  read_tunnel-Heard frame rest cut s sendable arrives = record {
    same = refl;
    same_layer = refl;
    found = λ f h.
        let (b, got, decodes) = read_tunnel-some S B I s f h in
        let (same, behind) =
          read_frame-part I c s.reader (encode frame) rest cut b sendable.1 arrives got in
        (ok_injective (sym decodes ∙ ap decode same ∙ decode-encode frame sendable.0), behind);
  }

  -- The plain side was given a front of `text`.
  abbrev pub Given : List ℕ → I.Writer → I.Writer → Type 0
  Given text w w' = (t : List ℕ) × (c.sent w' ≡ c.sent w ++ t) × IsFront t text

  nothing-Given : (text : List ℕ) (w w' : I.Writer) → c.sent w' ≡ c.sent w → Given text w w'
  nothing-Given text w w' e = ([], e ∙ sym (append-nil (c.sent w)), (text, refl))

  finish_down-Given :
      (text : List ℕ) (s : Down S B I) → Given text s.plain (finish_down S B I s).1.plain
  unfolding finish_down
  finish_down-Given text s = nothing-Given text s.plain _ (c.shuts s.plain)

  module _ (correct : IsCorrect S) (d : Direction) (others : ℕ → RecordLayer S B → RecordLayer S B)
      (undisturbed : IsUndisturbed S B d others) where
    -- An opened text is given to the plain side, and then what the rest gives.
    write_plain-Given :
        (pt text : List ℕ) (next : Down S B I → OrtResult (Option (Unit {0})) × Down S B I)
        (s : Down S B I)
        → ((w : I.Writer) → Given text w (next (record s { plain = w })).1.plain)
        → Given (pt ++ text) s.plain ((write_plain S B I pt >>= λ _. next) s).1.plain
    unfolding write_plain
    write_plain-Given pt text next s ih =
        let (part, left, split, written, whole) = c.writes s.plain pt in
        elim (Result-cases (I.write_all pt s.plain).0) [
          | inr (e, failed) ↦ rw failed (
            part,
            written,
            (left ++ text, ap (λ x. x ++ text) split ∙ append_assoc part left text),
          )
          | inl (_, done) ↦
              let (t, more, (rest, front)) = ih (I.write_all pt s.plain).1 in
              let full : pt ≡ part = split ∙ ap (λ x. part ++ x) (whole done) ∙ append-nil part in
              rw done (
                part ++ t,
                more ∙ ap (λ x. x ++ t) written ∙ append_assoc (c.sent s.plain) part t,
                (
                  rest,
                  ap (λ x. x ++ text) full
                      ∙ ap (λ x. part ++ x) front
                      ∙ sym (append_assoc part t rest),
                ),
              )
        ]

    -- A round, from what it does with the frame that is to come.
    round-Given :
        (text : List ℕ) (frame : Frame) (rest cut : List ℕ) (n : ℕ) (s : Down S B I)
        → Heard frame rest cut s
        → (c.pending (read_tunnel S B I s).1.reader ++ cut ≡ rest
            → Given text
                (read_tunnel S B I s).1.plain
                (down_frame S B I d
                  (others n)
                  (down_loop S B I d others n)
                  (some frame)
                  (read_tunnel S B I s).1).1.plain)
        → Given text s.plain (down_loop S B I d others (suc n) s).1.plain
    unfolding down_loop down_frame
    round-Given text frame rest cut n s heard then' =
        let s1 = (read_tunnel S B I s).1 in
        let before : (w : I.Writer) → Given text s1.plain w → Given text s.plain w =
          λ w g. subst (λ v. Given text v w) heard.same g in
        elim (Result-cases (read_tunnel S B I s).0) [
          | inr (e, failed) ↦ rw failed (nothing-Given text s.plain s1.plain (ap c.sent heard.same))
          | inl (o, got) ↦ elim (Option-cases o) [
            | inl gone ↦ rw (got, gone) (before _ (finish_down-Given text s1))
            | inr (f, came) ↦
                let (is, behind) = heard.found f (got ∙ ap (λ x. ok x) came) in
                rw (got, came, is) (before _ (then' behind))
          ]
        ]

    -- Wherever the pump stops, and whatever fails, with the records of `ps` or a part of them to come.
    pub down_loop-Given :
        (n : ℕ) (a : RecordLayer S B) (ps : List (List ℕ × List ℕ)) (s : Down S B I) (cut : List ℕ)
        → All (IsShort S B d) ps
        → Sealed S B d a ps
        → InStep S B d a s.layer
        → c.pending s.reader ++ cut ≡ wire S B d ps
        → Given (texts S B ps) s.plain (down_loop S B I d others n s).1.plain
    unfolding down_loop down_frame open_chunk
    down_loop-Given zero a ps s cut short sealed same arrives =
        nothing-Given (texts S B ps) s.plain s.plain refl
    down_loop-Given (suc n) a [] s cut short sealed same arrives =
        round-Given [] close [] cut n s
          (read_tunnel-Heard close [] cut s (close-IsSendable S B)
            (arrives ∙ sym (append-nil (on_wire close))))
          (λ _. finish_down-Given [] (read_tunnel S B I s).1)
    down_loop-Given (suc n) a ((pt, ct) ∷ ps) s cut short (b, at, is, sealed) same arrives =
        let frame = data_record (dir_byte d) ct in
        let heard = read_tunnel-Heard frame (wire S B d ps) cut s short.0 arrives in
        let s1 = (read_tunnel S B I s).1 in
        let l = others n s1.layer in
        let same1 : InStep S B d a s1.layer = subst (InStep S B d a) (sym heard.same_layer) same in
        let (opens, after) = open-sealed S B correct d pt ct b l is (
          InStep-trans S B at (InStep-trans S B same1 (InStep-sym S B (undisturbed n s1.layer)))) in
        let next = down_loop S B I d others n in
        let l1 = (open_record S B d ct l).1 in
        round-Given (pt ++ texts S B ps) frame (wire S B d ps) cut n s heard (λ behind. rw opens (
          write_plain-Given pt (texts S B ps) next (record s1 { layer = l1 })
            (λ w.
              down_loop-Given n (seal S B d pt b).1 ps (record s1 { plain = w; layer = l1 }) cut
                short.1 sealed after behind)))
