-- ===== src/Net/Forward/Cut.antt =====
-- A tunnel that is cut within a frame, or between two.
use ort.Prelude.{
  ℕ, zero, suc, ◌≡◌, ◌≤◌, ◌<◌, ◌%◌, ◌^◌, refl, sym, ap, ◌∙◌, List, ◌∷◌, ◌++◌, append_assoc,
  append_injective, Option, none, some, ok, err, length, length-append, length-be_bytes,
  length-take, take, drop, take-append-drop, All, be_value, be_value-be_bytes, ltb, lt→ltb, le→ltb,
  ltb→le, Bool-cases, if◌then◌else◌, inl, inr, arith,
}
use ort.Core.Suite.Cipher.{CipherSuite, Blake3, IsCorrect, IsCompact}
use ort.Core.Pool.{Direction}
use ort.Core.Record.{RecordLayer}
use ort.Core.Record.Peers.{InStep}
use ort.Proto.Frame.{encode_framed, prefix_of, max_frame}
use ort.Proto.Messages.Frames.{Frame, encode}
use ort.Net.Error.{IoResult, OrtResult, io, unexpected_eof}
use ort.Net.Stream.{Stream, IsReliable}
use ort.Net.Transport.{read_frame}
use ort.Net.Transport.Frames.{outcome, read_frame-outcome}
use ort.Net.Session.Wire.{IsSendable, on_wire}
use ort.Net.Forward.{Down, read_tunnel, finish_down, down_frame, down_loop}
use ort.Net.Forward.Chunks.{IsUndisturbed, Sealed, texts, records, IsShort}
use ort.Net.Forward.Arrivals.{down_loop-records}

-- What reading a frame answers to a part of one.
abbrev pub cut_outcome : List ℕ → IoResult (Option (List ℕ))
cut_outcome stub = if ltb (length stub) 4 then ok none else err unexpected_eof

outcome-cut :
    (body stub more : List ℕ) (b : ℕ)
    → length body ≤ max_frame
    → encode_framed body ≡ stub ++ (b ∷ more)
    → outcome stub ≡ cut_outcome stub
unfolding encode_framed
outcome-cut body stub more b small split = elim (Bool-cases (ltb (length stub) 4)) [
  | inl short ↦ rw short refl
  | inr enough ↦
      let whole : take 4 stub ++ (drop 4 stub ++ (b ∷ more)) ≡ prefix_of body ++ body =
        sym (append_assoc (take 4 stub) (drop 4 stub) (b ∷ more))
        ∙ ap (λ x. x ++ (b ∷ more)) (take-append-drop 4 stub)
        ∙ sym split in
      let four : length (take 4 stub) ≡ length (prefix_of body) =
        omega (
          arith,
          length-take 4 stub,
          length-be_bytes 4 (length body % 2 ^ 32),
          ltb→le _ _ enough,
        ) in
      let (front, behind) = append_injective (take 4 stub) (prefix_of body) _ _ four whole in
      let n : be_value (take 4 stub) ≡ length body =
        ap be_value front
        ∙ be_value-be_bytes 4 (length body % 2 ^ 32) (omega arith)
        ∙ (omega arith) in
      let less : length (drop 4 stub) < length body =
        omega (arith, ap length behind, length-append (drop 4 stub) (b ∷ more)) in
      rw (enough, n, le→ltb max_frame (length body) small, lt→ltb _ _ less) refl
]

module _ (S : CipherSuite) (B : Blake3) (I : Stream) (correct : IsCorrect S) (compact : IsCompact S)
    (c : IsReliable I) (d : Direction) (others : ℕ → RecordLayer S B → RecordLayer S B)
    (undisturbed : IsUndisturbed S B d others) where
  abbrev cut_answer : List ℕ → OrtResult (Option (Unit {0}))
  cut_answer stub = if ltb (length stub) 4 then ok (some tt) else err (io unexpected_eof)

  pub cut_round :
      (k : ℕ) (s : Down S B I) (stub : List ℕ)
      → 0 < k
      → (read_frame I s.reader).0 ≡ cut_outcome stub
      → ((down_loop S B I d others k s).0 ≡ cut_answer stub)
        × (c.sent (down_loop S B I d others k s).1.plain ≡ c.sent s.plain)
  unfolding down_loop read_tunnel down_frame finish_down
  cut_round zero s stub h got = absurd (omega arith)
  cut_round (suc k) s stub h got = elim (Bool-cases (ltb (length stub) 4)) [
    | inl short ↦
        let (w, e, sent) = c.shuts s.plain in
        let none_left : (read_frame I s.reader).0 ≡ ok none = got ∙ rw short refl in
        rw (short, none_left, e) (refl, sent)
    | inr enough ↦
        let failed : (read_frame I s.reader).0 ≡ err unexpected_eof = got ∙ rw enough refl in
        rw (enough, failed) (refl, refl)
  ]

  -- A tunnel that is cut behind some records, `stub` bytes into the next frame, on a connection that
  -- gives all that came: the plain side receives what those records hold and nothing else, and the
  -- pump ends with an error where at least the frame's length had come, and otherwise as after the
  -- closing frame. The suite is correct and compact. There is fuel for every record and one round
  -- more.
  pub down_cut :
      (n : ℕ) (a : RecordLayer S B) (ps : List (List ℕ × List ℕ)) (s : Down S B I) (frame : Frame)
      (stub more : List ℕ) (b : ℕ)
      → length ps < n
      → All (IsShort S B d) ps
      → Sealed S B d a ps
      → InStep S B d a s.layer
      → IsSendable frame
      → on_wire frame ≡ stub ++ (b ∷ more)
      → c.pending s.reader ≡ records S B d ps ++ stub
      → ((down_loop S B I d others n s).0
          ≡ (if ltb (length stub) 4 then ok (some tt) else err (io unexpected_eof)))
        × (c.sent (down_loop S B I d others n s).1.plain ≡ c.sent s.plain ++ texts S B ps)
  down_cut n a ps s frame stub more b fuel short sealed same sendable cut arrives =
      let q =
        down_loop-records S B I c d correct others undisturbed n a ps s stub (omega arith) short
          sealed same arrives in
      let got : (read_frame I q.s'.reader).0 ≡ cut_outcome stub =
        read_frame-outcome I c q.s'.reader
        ∙ ap outcome q.behind
        ∙ outcome-cut (encode frame) stub more b sendable.1 cut in
      let (ends, given) = cut_round q.k q.s' stub (omega (arith, q.rounds)) got in
      (ap (λ x. x.0) q.goes_on ∙ ends, ap (λ x. c.sent x.1.plain) q.goes_on ∙ given ∙ q.given)
