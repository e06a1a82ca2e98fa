-- ===== src/Net/Forward/Steady/Downs.antt =====
-- The pump from the tunnel, after any number of rounds, where whole records are to come.
use ort.Prelude.{
  ℕ, zero, suc, ◌≡◌, refl, sym, ap, ◌∙◌, List, [], ◌∷◌, ◌++◌, append_assoc, append-nil, Option,
  none, some, ok, All, ◌⊎◌, inl, inr, arith,
}
use mathlib.Core.Path.{subst}
use ort.Core.Suite.Cipher.{CipherSuite, Blake3, IsCorrect, IsCompact}
use ort.Core.Pool.{Direction, dir_byte}
use ort.Core.Record.{RecordLayer, seal}
use ort.Core.Record.Peers.{InStep, InStep-trans}
use ort.Proto.Messages.Frames.{data_record, close}
use ort.Net.Error.{OrtResult}
use ort.Net.Stream.{Stream, IsReliable}
use ort.Net.Transport.Frames.{read_frame-outcome, outcome}
use ort.Net.Session.Wire.{on_wire}
use ort.Net.Forward.{Down, down_loop}
use ort.Net.Forward.Chunks.{IsUndisturbed, Sealed, texts, records, IsShort}
use ort.Net.Forward.Arrivals.{record-Opened, closing_round}
use ort.Net.Forward.Cut.{cut_round}

-- What comes behind the records: nothing, or the closing frame.
abbrev pub IsTail : List ℕ → Type 0
IsTail tail = (tail ≡ []) ⊎ (tail ≡ on_wire close)

module _ (S : CipherSuite) (B : Blake3) (I : Stream) (correct : IsCorrect S) (compact : IsCompact S)
    (c : IsReliable I) (d : Direction) (others : ℕ → RecordLayer S B → RecordLayer S B)
    (undisturbed : IsUndisturbed S B d others) where
  -- The pump runs, or it has ended and the plain side was given all of `text`.
  abbrev pub Settles : List ℕ → I.Writer → OrtResult (Option (Unit {0})) × Down S B I → Type 0
  Settles text w x =
      (x.0 ≡ ok none) ⊎ ((x.0 ≡ ok (some tt)) × (c.sent x.1.plain ≡ c.sent w ++ text))

  more-Settles :
      (pt text : List ℕ) (w w1 : I.Writer) (x : OrtResult (Option (Unit {0})) × Down S B I)
      → c.sent w1 ≡ c.sent w ++ pt
      → Settles text w1 x
      → Settles (pt ++ text) w x
  more-Settles pt text w w1 x given (inl h) = inl h
  more-Settles pt text w w1 x given (inr (done, sent)) =
      inr (done, sent ∙ ap (λ s. s ++ text) given ∙ append_assoc (c.sent w) pt text)

  last-Settles :
      (n : ℕ) (s : Down S B I)
      → IsTail (c.pending s.reader)
      → Settles [] s.plain (down_loop S B I d others (suc n) s)
  last-Settles n s (inl gone) =
      let (ends, given) =
        cut_round S B I correct compact c d others undisturbed (suc n) s [] (omega arith)
          (read_frame-outcome I c s.reader ∙ ap outcome gone) in
      inr (ends, given ∙ sym (append-nil (c.sent s.plain)))
  last-Settles n s (inr closed) =
      let (s', done, given) =
        closing_round S B I c d correct others undisturbed (suc n) s [] (omega arith)
          (closed ∙ sym (append-nil (on_wire close))) in
      inr (
        ap (λ x. x.0) done,
        ap (λ x. c.sent x.1.plain) done ∙ given ∙ sym (append-nil (c.sent s.plain)),
      )

  pub down_loop-Settles :
      (n : ℕ) (a : RecordLayer S B) (ps : List (List ℕ × List ℕ)) (s : Down S B I) (tail : List ℕ)
      → IsTail tail
      → All (IsShort S B d) ps
      → Sealed S B d a ps
      → InStep S B d a s.layer
      → c.pending s.reader ≡ records S B d ps ++ tail
      → Settles (texts S B ps) s.plain (down_loop S B I d others n s)
  unfolding down_loop
  down_loop-Settles zero a ps s tail ends short sealed same arrives = inl refl
  down_loop-Settles (suc n) a [] s tail ends short sealed same arrives =
      last-Settles n s (subst IsTail (sym arrives) ends)
  down_loop-Settles (suc n) a ((pt, ct) ∷ ps) s tail ends short (b, at, is, sealed) same arrives =
      let o =
        record-Opened S B I c d correct others undisturbed n b pt ct (records S B d ps ++ tail) s
          short.0 is (InStep-trans S B at same)
          (arrives
            ∙ append_assoc (on_wire (data_record (dir_byte d) ct)) (records S B d ps) tail) in
      more-Settles pt (texts S B ps) s.plain o.next.plain (down_loop S B I d others (suc n) s)
        o.given
        (subst (Settles (texts S B ps) o.next.plain) (sym o.goes_on) (
          down_loop-Settles n (seal S B d pt b).1 ps o.next tail ends short.1 sealed o.after
            o.behind))
