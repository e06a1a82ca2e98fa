-- ===== src/Net/Forward/Through.antt =====
-- Both pumps of a direction, one at each end of the tunnel, and the key confirmation.
use ort.Prelude.{
  ℕ, ◌≡◌, ◌≢◌, ◌≤◌, ◌<◌, refl, sym, ap, ◌∙◌, List, [], ◌∷◌, ◌++◌, append-nil, append_injective,
  none, some, ok, err, length, length-append, length-be_bytes, IsBytes, arith, ne→bytes_eq,
  bytes_eq_refl,
}
use ort.Core.Suite.Cipher.{CipherSuite, Blake3, IsCorrect, IsCompact}
use ort.Core.Pool.{Direction, dir_byte}
use ort.Core.Record.{RecordLayer}
use ort.Core.Record.Peers.{InStep}
use ort.Proto.Frame.{encode_framed, prefix_of}
use ort.Proto.Messages.Frames.{Frame, server_ack, data_record, encode}
use ort.Net.Error.{key_confirmation}
use ort.Net.Stream.{Stream, IsReliable}
use ort.Net.Session.Wire.{IsSendable, on_wire}
use ort.Net.Forward.{Up, Down, up, down, check_ack}
use ort.Net.Forward.Chunks.{IsUndisturbed, wire}
use ort.Net.Forward.Pumps.{up-Pumps}
use ort.Net.Forward.Arrivals.{down_loop-texts, read_tunnel-on_wire}

module _ (S : CipherSuite) (B : Blake3) (d : Direction) where
  on_wire-length : (f : Frame) → 4 ≤ length (on_wire f)
  unfolding encode_framed
  on_wire-length f =
      omega (arith, length-append (prefix_of (encode f)) (encode f), length-be_bytes 4 _)

  -- There are fewer chunks than bytes on the wire.
  wire-length : (ps : List (List ℕ × List ℕ)) → length ps < length (wire S B d ps)
  wire-length [] = omega (arith, on_wire-length Frame.close)
  wire-length ((pt, ct) ∷ ps) =
      let f = data_record (dir_byte d) ct in
      omega (arith, length-append (on_wire f) (wire S B d ps), on_wire-length f, wire-length ps)

module _ (S : CipherSuite) (B : Blake3) (I : Stream) (correct : IsCorrect S) (compact : IsCompact S)
    (c : IsReliable I) (d : Direction) (here there : ℕ → RecordLayer S B → RecordLayer S B)
    (undisturbed : IsUndisturbed S B d here) (undisturbed' : IsUndisturbed S B d there) where
  -- What the plain side of one end wrote before it closed is what the plain side of the other end
  -- receives, whatever the bytes and however many, and both pumps end without an error. The suite
  -- is correct and compact, the connections do not fail, what is to be read from the tunnel is what
  -- the other end's pump writes to it, the layers are in step in this direction, and each end's
  -- other pump leaves this direction's key and pool alone. The fuel is more than the bytes on the
  -- plain side for the one, at least those on the tunnel for the other.
  pub up-down :
      (u : Up S B I) (s : Down S B I) (n m : ℕ)
      → InStep S B d u.layer s.layer
      → IsBytes (c.pending u.plain)
      → c.sent (up S B I d here n u).1.writer ≡ c.sent u.writer ++ c.pending s.reader
      → length (c.pending u.plain) < n
      → length (c.pending s.reader) ≤ m
      → ((up S B I d here n u).0 ≡ ok (some tt))
        × ((down S B I d none there m s).0 ≡ ok (some tt))
        × (c.sent (down S B I d none there m s).1.plain ≡ c.sent s.plain ++ c.pending u.plain)
  unfolding down
  up-down u s n m same bytes wired fuel fuel' =
      let (u', done, p) = up-Pumps S B I compact c d here undisturbed n u fuel bytes in
      let arrives : c.pending s.reader ≡ wire S B d p.chunks =
        (append_injective (c.sent u.writer) (c.sent u.writer) _ _ refl
          (sym wired ∙ ap (λ x. c.sent x.1.writer) done ∙ p.written)).1 in
      let enough : length p.chunks < m =
        omega (arith, wire-length S B d p.chunks, ap length arrives) in
      let (s', done', text) =
        down_loop-texts S B I c d correct there undisturbed' m u.layer p.chunks s [] enough p.short
          p.sealed same (arrives ∙ sym (append-nil _)) in
      (
        ap (λ x. x.0) done,
        ap (λ x. x.0) done',
        ap (λ x. c.sent x.1.plain) done' ∙ text ∙ ap (λ t. c.sent s.plain ++ t) p.texts_read,
      )

  -- If the client's pump awaits an acknowledgement and the first frame is one with another hash,
  -- the pump ends with the key confirmation error and has given nothing to the plain side. The
  -- connection does not fail.
  pub down_refused :
      (expected ek_hash rest : List ℕ) (s : Down S B I) (m : ℕ)
      → IsSendable (server_ack ek_hash)
      → c.pending s.reader ≡ on_wire (server_ack ek_hash) ++ rest
      → ek_hash ≢ expected
      → ((down S B I d (some expected) there m s).0 ≡ err key_confirmation)
        × ((down S B I d (some expected) there m s).1.plain ≡ s.plain)
  unfolding down check_ack
  down_refused expected ek_hash rest s m h arrives differs =
      let (r, got, left) =
        read_tunnel-on_wire S B I c d correct there undisturbed' (server_ack ek_hash) s rest h
          arrives in
      rw (got, ne→bytes_eq ek_hash expected differs) (refl, refl)

  -- If the first frame is the acknowledgement that the pump awaits, the pump goes on behind it as
  -- one that awaits none. The connection does not fail.
  pub down_confirmed :
      (expected rest : List ℕ) (s : Down S B I) (m : ℕ)
      → IsSendable (server_ack expected)
      → c.pending s.reader ≡ on_wire (server_ack expected) ++ rest
      → (r : I.Reader) × (c.pending r ≡ rest)
        × (down S B I d (some expected) there m s
            ≡ down S B I d none there m (record s { reader = r }))
  unfolding down check_ack
  down_confirmed expected rest s m h arrives =
      let (r, got, left) =
        read_tunnel-on_wire S B I c d correct there undisturbed' (server_ack expected) s rest h
          arrives in
      (r, left, rw (got, bytes_eq_refl expected))
