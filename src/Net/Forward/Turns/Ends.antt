-- ===== src/Net/Forward/Turns/Ends.antt =====
-- Every round that goes on has read something, so `forward` ends, whatever the peer sends.
use ort.Prelude.{
  ℕ, ◌≡◌, ◌<◌, refl, sym, ap, ◌∙◌, List, [], ◌∷◌, ◌++◌, Option, none, some, ok, length,
  length-append, Bool-cases, bytes_eq, ◌≢◌, inl, inr, Result-cases, Option-cases, arith,
}
use mathlib.Core.Path.{subst}
use ort.Core.Suite.Cipher.{CipherSuite, Blake3}
use ort.Core.Pool.{Direction, flip, dir_byte}
use ort.Core.Record.{seal, open_record}
use ort.Proto.Messages.Frames.{
  Frame, client_hello_one_rtt, client_hello_zero_rtt, client_data, server_hello, server_ack,
  data_record, close, encode,
}
use ort.Net.Error.{OrtResult}
use ort.Net.Io.{◌>>=◌}
use ort.Net.Stream.{Stream, IsOrdered}
use ort.Net.Transport.{read_frame, write_frame}
use ort.Net.Transport.Failing.{read_frame-Took}
use ort.Net.Forward.{
  chunk_len, Up, Down, up, up_chunk, read_plain, seal_chunk, write_up, finish_up, down, down_loop,
  down_frame, read_tunnel, check_ack, open_chunk, write_plain, finish_down,
}
use ort.Net.Forward.Frames.{read_tunnel-some}
use ort.Net.Forward.Turns.{up_round, down_round, ack_round}

module _ (S : CipherSuite) (B : Blake3) (I : Stream) (c : IsOrdered I) where
  abbrev pub left : I.Reader → ℕ
  left r = length (c.pending r)

  -- A round that goes on has taken something from `r`.
  abbrev pub Shrinks : I.Reader → OrtResult (Option (Unit {0})) → I.Reader → Type 0
  Shrinks r answered r' = answered ≡ ok none → left r' < left r

  module _ (d : Direction) where
    up_chunk-Shrinks :
        (r : I.Reader) (chunk : List ℕ) (v : Up S B I)
        → c.pending r ≡ chunk ++ c.pending v.plain
        → Shrinks r
            (up_chunk S B I d (λ l. l) (λ v. (ok none, v)) chunk v).0
            (up_chunk S B I d (λ l. l) (λ v. (ok none, v)) chunk v).1.plain
    unfolding up_chunk finish_up seal_chunk write_up
    up_chunk-Shrinks r [] v e = λ h. absurd (cc h)
    up_chunk-Shrinks r (x ∷ xs) v e =
        let (ct, _) = seal S B d (x ∷ xs) v.layer in
        elim (Result-cases (write_frame I (encode (data_record (dir_byte d) ct)) v.writer).0) [
          | inr (e', failed') ↦ rw failed' (λ h. absurd (cc h))
          | inl (_, done) ↦
              rw done (λ _. omega (arith, ap length e, length-append (x ∷ xs) (c.pending v.plain)))
        ]

    pub up_round-Shrinks :
        (u : Up S B I) → Shrinks u.plain (up_round S B I d u).0 (up_round S B I d u).1.plain
    unfolding up_round up read_plain
    up_round-Shrinks u =
        let (taken, split, known) = c.reads u.plain chunk_len in
        let r = (I.read chunk_len u.plain).1 in
        elim (Result-cases (I.read chunk_len u.plain).0) [
          | inr (e, failed') ↦ rw failed' (λ h. absurd (cc h))
          | inl (chunk, got) ↦ rw got (
              up_chunk-Shrinks u.plain chunk (record u { plain = r })
                (split ∙ ap (λ x. x ++ c.pending r) (sym (known chunk got).0)))
        ]

  read_tunnel-Shrinks :
      (s : Down S B I) (frame : Frame)
      → (read_tunnel S B I s).0 ≡ ok (some frame)
      → left (read_tunnel S B I s).1.reader < left s.reader
  unfolding read_tunnel
  read_tunnel-Shrinks s frame h =
      let (b, got, _) = read_tunnel-some S B I s frame h in
      let (taken, split, known) = read_frame-Took I c s.reader in
      let (len_buf, is, four, _) = known b got in
      omega (
        arith,
        ap length split,
        length-append taken (c.pending (read_frame I s.reader).1),
        ap length is,
        length-append len_buf b,
      )

  -- What is done with a frame reads nothing more.
  down_frame-reader :
      (d : Direction) (frame : Option Frame) (s : Down S B I)
      → (down_frame S B I d (λ l. l) (λ v. (ok none, v)) frame s).1.reader ≡ s.reader
  unfolding down_frame open_chunk write_plain finish_down
  down_frame-reader d none s = refl
  down_frame-reader d (some close) s = refl
  down_frame-reader d (some (data_record dir ct)) s =
      let (pt, l) = open_record S B d ct s.layer in
      elim (Result-cases pt) [
        | inr (e, refused) ↦ rw refused refl
        | inl (text, opened) ↦ elim (Result-cases (I.write_all text s.plain).0) [
          | inr (e, failed') ↦ rw (opened, failed') refl
          | inl (_, done) ↦ rw (opened, done) refl
        ]
      ]
  down_frame-reader d (some (client_hello_one_rtt _ _)) s = refl
  down_frame-reader d (some (client_hello_zero_rtt _ _ _)) s = refl
  down_frame-reader d (some (client_data _ _)) s = refl
  down_frame-reader d (some (server_hello _ _ _ _)) s = refl
  down_frame-reader d (some (server_ack _)) s = refl

  check_ack-reader :
      (d : Direction) (expected : List ℕ) (frame : Option Frame) (s : Down S B I)
      → (check_ack S B I d expected (λ v. (ok none, v)) frame s).1.reader ≡ s.reader
  unfolding check_ack
  check_ack-reader d expected none s = refl
  check_ack-reader d expected (some (server_ack ek_hash)) s =
      elim (Bool-cases (bytes_eq ek_hash expected)) [
        | inl same ↦ rw same refl
        | inr other ↦ rw other refl
      ]
  check_ack-reader d expected (some close) s = refl
  check_ack-reader d expected (some (data_record _ _)) s = refl
  check_ack-reader d expected (some (client_hello_one_rtt _ _)) s = refl
  check_ack-reader d expected (some (client_hello_zero_rtt _ _ _)) s = refl
  check_ack-reader d expected (some (client_data _ _)) s = refl
  check_ack-reader d expected (some (server_hello _ _ _ _)) s = refl

  -- A round that reads a frame, and then reads nothing more.
  reading-Shrinks :
      (then' : Option Frame → Down S B I → OrtResult (Option (Unit {0})) × Down S B I)
      (s : Down S B I)
      → ((frame : Option Frame) (v : Down S B I) → (then' frame v).1.reader ≡ v.reader)
      → ((v : Down S B I) → (then' none v).0 ≢ ok none)
      → Shrinks s.reader
          ((read_tunnel S B I >>= then') s).0
          ((read_tunnel S B I >>= then') s).1.reader
  reading-Shrinks then' s keeps stops =
      let v = (read_tunnel S B I s).1 in
      elim (Result-cases (read_tunnel S B I s).0) [
        | inr (e, failed') ↦ rw failed' (λ h. absurd (cc h))
        | inl (o, got) ↦ elim (Option-cases o) [
          | inl gone ↦ rw (got, gone) (λ h. absurd (stops v h))
          | inr (frame, came) ↦
              let some_frame = got ∙ ap (λ x. ok x) came in
              rw some_frame (λ _.
                subst (λ r. left r < left s.reader) (sym (keeps (some frame) v))
                  (read_tunnel-Shrinks s frame some_frame))
        ]
      ]

  module _ (d : Direction) where
    pub down_round-Shrinks :
        (s : Down S B I) → Shrinks s.reader (down_round S B I d s).0 (down_round S B I d s).1.reader
    unfolding down_round down_loop down_frame finish_down
    down_round-Shrinks s =
        reading-Shrinks (down_frame S B I (flip d) (λ l. l) (λ v. (ok none, v))) s
          (down_frame-reader (flip d)) (λ v h. absurd (cc h))

    pub ack_round-Shrinks :
        (expected : List ℕ) (s : Down S B I)
        → Shrinks s.reader (ack_round S B I d expected s).0 (ack_round S B I d expected s).1.reader
    unfolding ack_round down check_ack down_loop
    ack_round-Shrinks expected s =
        reading-Shrinks (check_ack S B I (flip d) expected (λ v. (ok none, v))) s
          (check_ack-reader (flip d) expected) (λ v h. absurd (cc h))
