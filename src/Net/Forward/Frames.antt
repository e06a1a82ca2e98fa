-- ===== src/Net/Forward/Frames.antt =====
-- A frame that a pump has read from the tunnel.
use ort.Prelude.{
  ℕ, ◌≡◌, sym, ap, ◌∙◌, List, Option, none, some, ok, map_err, and_then, map_err-eq-ok,
  and_then-eq-ok, Option-cases, inl, inr,
}
use ort.Core.Suite.Cipher.{CipherSuite, Blake3}
use ort.Proto.Messages.Frames.{Frame, decode}
use ort.Net.Error.{OrtResult, io, proto}
use ort.Net.Stream.{Stream}
use ort.Net.Transport.{read_frame}
use ort.Net.Forward.{Down, read_tunnel}

module _ (S : CipherSuite) (B : Blake3) (I : Stream) where
  decoded : Option (List ℕ) → OrtResult (Option Frame)
  decoded none = ok none
  decoded (some b) = and_then (map_err proto (decode b)) λ frame. ok (some frame)

  -- It was a body that decodes to this frame.
  pub read_tunnel-some :
      (s : Down S B I) (frame : Frame)
      → (read_tunnel S B I s).0 ≡ ok (some frame)
      → (b : List ℕ) × ((read_frame I s.reader).0 ≡ ok (some b)) × (decode b ≡ ok frame)
  unfolding read_tunnel decoded
  read_tunnel-some s frame h =
      let (body, got, h') = and_then-eq-ok (map_err io (read_frame I s.reader).0) _ h in
      elim (Option-cases body) [
        | inl gone ↦ absurd (cc (sym h' ∙ ap decoded gone))
        | inr (b, came) ↦
            let (f, is, same) =
              and_then-eq-ok (map_err proto (decode b)) _ (sym (ap decoded came) ∙ h') in
            (
              b,
              map_err-eq-ok io _ got ∙ ap (λ x. ok x) came,
              map_err-eq-ok proto _ is ∙ ap (λ x. ok x) (cc same),
            )
      ]
