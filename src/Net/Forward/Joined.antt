-- ===== src/Net/Forward/Joined.antt =====
-- `forward` at the two ends of a session that hold one record layer.
use ort.Prelude.{
  ℕ, ◌≡◌, ◌≤◌, ◌<◌, refl, sym, ap, ◌∙◌, List, [], ◌∷◌, ◌++◌, append_assoc, append-nil, none, some,
  ok, length, IsBytes,
}
use ort.Core.Suite.Cipher.{CipherSuite, Blake3, IsCorrect, IsCompact}
use ort.Core.Pool.{Direction, dir_pool}
use ort.Core.Record.Peers.{InStep}
use ort.Proto.Messages.Frames.{server_ack}
use ort.Net.Session.Wire.{IsSendable, on_wire}
use ort.Net.Stream.{Stream, IsReliable}
use ort.Net.Session.{OrtConn, send_dir, recv_dir}
use ort.Net.Forward.{Up, Down, up, down, flush_early}
use ort.Net.Forward.Chunks.{wire}
use ort.Net.Forward.Pumps.{up-Pumps}
use ort.Net.Forward.Through.{up-down, down_confirmed}
use ort.Net.Forward.Shared.{Use, scheduled, scheduled-IsUndisturbed}
use ort.Net.Forward.Halves.{forward_up, forward_down, pumped_down}

module _ (S : CipherSuite) (B : Blake3) (I : Stream) (c : IsReliable I) where
  pub flush_early-sent :
      (early : List ℕ) (w : I.Writer)
      → (w' : I.Writer) × (flush_early S B I early w ≡ (ok tt, w'))
        × (c.sent w' ≡ c.sent w ++ early)
  unfolding flush_early
  flush_early-sent [] w = (w, refl, sym (append-nil (c.sent w)))
  flush_early-sent (b ∷ bs) w = c.writes w (b ∷ bs)

module _ (S : CipherSuite) (B : Blake3) (I : Stream) (correct : IsCorrect S) (compact : IsCompact S)
    (c : IsReliable I) (here there : ℕ → List Use) (conn : OrtConn S B I) (n : ℕ) (plain : I.Reader)
    (pw : I.Writer) (early_back : List ℕ) (bytes : IsBytes (c.pending plain))
    (fuel : length (c.pending plain) < n) where
  abbrev d : Direction
  d = send_dir conn.role

  abbrev start : Up S B I
  start = record { plain = plain; writer = conn.writer; layer = conn.record_layer }

  pumps : forward_up S B I (scheduled S B d here) n plain pw conn early_back ≡ (
    (up S B I d (scheduled S B d here) n start).0,
    (up S B I d (scheduled S B d here) n start).1.writer,
  )
  unfolding forward_up
  pumps = let (_, flushed, _) = flush_early-sent S B I c early_back pw in rw flushed refl

  -- What this end writes to the tunnel comes behind what was written there.
  pub forward_up-extends :
      (chunks : List ℕ) × (c.sent
          (forward_up S B I (scheduled S B d here) n plain pw conn early_back).1
        ≡ c.sent conn.writer ++ chunks)
  forward_up-extends =
      let (u', done, p) =
        up-Pumps S B I compact c d (scheduled S B d here) (scheduled-IsUndisturbed S B d here) n
          start fuel bytes in
      (
        wire S B d p.chunks,
        ap (λ x. c.sent x.1) pumps ∙ ap (λ x. c.sent x.1.writer) done ∙ p.written,
      )

  pub forward_up-forward_down :
      (conn' : OrtConn S B I) (m : ℕ) (plain' : I.Writer) (early : List ℕ)
      → recv_dir conn'.role ≡ d
      → conn'.record_layer ≡ conn.record_layer
      → c.sent (forward_up S B I (scheduled S B d here) n plain pw conn early_back).1
        ≡ c.sent conn.writer ++ c.pending conn'.reader
      → length (c.pending conn'.reader) ≤ m
      → ((forward_up S B I (scheduled S B d here) n plain pw conn early_back).0 ≡ ok (some tt))
        × ((forward_down S B I (scheduled S B d there) m plain' conn' none early).0 ≡ ok (some tt))
        × (c.sent (forward_down S B I (scheduled S B d there) m plain' conn' none early).1
            ≡ c.sent plain' ++ (early ++ c.pending plain))
  unfolding forward_down
  forward_up-forward_down conn' m plain' early facing same wired fuel' =
      let (w, flushed, flush) = flush_early-sent S B I c early plain' in
      let s : Down S B I = record {
        reader = conn'.reader;
        plain = w;
        layer = conn'.record_layer;
      } in
      let in_step : InStep S B d conn.record_layer s.layer = record {
        key = ap (λ l. l.keys.enc_key) (sym same);
        pool = ap (λ l. dir_pool B d l.pool) (sym same);
      } in
      let (begins, ends, text) =
        up-down S B I correct compact c d (scheduled S B d here) (scheduled S B d there)
          (scheduled-IsUndisturbed S B d here) (scheduled-IsUndisturbed S B d there) start s n m
          in_step bytes (sym (ap (λ x. c.sent x.1) pumps) ∙ wired) fuel fuel' in
      let delivers : forward_down S B I (scheduled S B d there) m plain' conn' none early
          ≡ pumped_down S B I (scheduled S B d there) m (ok tt) w conn' none =
        rw flushed refl in
      let delivers' : pumped_down S B I (scheduled S B d there) m (ok tt) w conn' none ≡ (
        (down S B I d none (scheduled S B d there) m s).0,
        (down S B I d none (scheduled S B d there) m s).1.plain,
      ) =
        rw facing refl in
      (
        ap (λ x. x.0) pumps ∙ begins,
        ap (λ x. x.0) (delivers ∙ delivers') ∙ ends,
        ap (λ x. c.sent x.1) (delivers ∙ delivers')
            ∙ text
            ∙ ap (λ x. x ++ c.pending plain) flush
            ∙ append_assoc (c.sent plain') early (c.pending plain),
      )

  -- An end that awaits the acknowledgement it reads goes on behind it.
  pub forward_down_confirmed :
      (conn' : OrtConn S B I) (expected rest : List ℕ) (m : ℕ) (plain' : I.Writer)
      → recv_dir conn'.role ≡ d
      → IsSendable (server_ack expected)
      → c.pending conn'.reader ≡ on_wire (server_ack expected) ++ rest
      → (r : I.Reader) × (c.pending r ≡ rest)
        × (forward_down S B I (scheduled S B d there) m plain' conn' (some expected) []
            ≡ forward_down S B I
                (scheduled S B d there)
                m
                plain'
                (record conn' { reader = r })
                none
                [])
  unfolding forward_down flush_early
  forward_down_confirmed conn' expected rest m plain' facing sendable arrives =
      let s : Down S B I = record {
        reader = conn'.reader;
        plain = plain';
        layer = conn'.record_layer;
      } in
      let (r, left, goes_on) =
        down_confirmed S B I correct compact c d (scheduled S B d here) (scheduled S B d there)
          (scheduled-IsUndisturbed S B d here) (scheduled-IsUndisturbed S B d there) expected rest s
          m sendable arrives in
      (r, left, rw facing (ap (λ x. (x.0, x.1.plain)) goes_on))
