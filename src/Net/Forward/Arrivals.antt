-- ===== src/Net/Forward/Arrivals.antt =====
-- The pump from the tunnel: from a layer in step with the one that sealed them, chunks arrive as text.
use ort.Prelude.{
  ℕ, zero, suc, ◌+◌, ◌≡◌, ◌≤◌, ◌<◌, refl, sym, ap, ◌∙◌, List, [], ◌∷◌, ◌++◌, append_assoc,
  append-nil, some, ok, length, All, arith,
}
use ort.Core.Suite.Cipher.{CipherSuite, Blake3, IsCorrect}
use ort.Core.Pool.{Direction, dir_byte}
use ort.Core.Record.{RecordLayer, seal, open_record}
use ort.Core.Record.Peers.{InStep, InStep-trans, InStep-sym, open-sealed}
use ort.Proto.Messages.Frames.{Frame, data_record, close, encode}
use ort.Proto.Messages.RoundTrip.{decode-encode}
use ort.Net.Stream.{Stream, IsReliable}
use ort.Net.Transport.Frames.{read_frame-encode_framed}
use ort.Net.Session.Wire.{IsSendable, on_wire}
use ort.Net.Forward.{Down, read_tunnel, write_plain, finish_down, open_chunk, down_frame, down_loop}
use ort.Net.Forward.Chunks.{
  IsUndisturbed, Sealed, texts, wire, records, wire-records, IsShort, close-IsSendable,
}

module _ (S : CipherSuite) (B : Blake3) (I : Stream) (c : IsReliable I) (d : Direction)
    (correct : IsCorrect S) (others : ℕ → RecordLayer S B → RecordLayer S B)
    (undisturbed : IsUndisturbed S B d others) where
  pub read_tunnel-on_wire :
      (frame : Frame) (s : Down S B I) (rest : List ℕ)
      → IsSendable frame
      → c.pending s.reader ≡ on_wire frame ++ rest
      → (r : I.Reader) × (read_tunnel S B I s ≡ (ok (some frame), record s { reader = r }))
        × (c.pending r ≡ rest)
  unfolding read_tunnel
  read_tunnel-on_wire frame s rest h e =
      let (r, got, left) = read_frame-encode_framed I c s.reader (encode frame) rest h.1 e in
      (r, rw (got, decode-encode frame h.0), left)

  -- A round that finds a record of the layer `b`: it is opened and given to the plain side.
  pub record Opened (n : ℕ) (b : RecordLayer S B) (pt : List ℕ) (rest : List ℕ) (s : Down S B I)
      : Type 0 where
    pub next : Down S B I
    pub goes_on : down_loop S B I d others (suc n) s ≡ down_loop S B I d others n next
    pub after : InStep S B d (seal S B d pt b).1 next.layer
    pub behind : c.pending next.reader ≡ rest
    pub given : c.sent next.plain ≡ c.sent s.plain ++ pt

  pub record-Opened :
      (n : ℕ) (b : RecordLayer S B) (pt ct : List ℕ) (rest : List ℕ) (s : Down S B I)
      → IsSendable (data_record (dir_byte d) ct)
      → ct ≡ (seal S B d pt b).0
      → InStep S B d b s.layer
      → c.pending s.reader ≡ on_wire (data_record (dir_byte d) ct) ++ rest
      → Opened n b pt rest s
  unfolding down_loop down_frame open_chunk write_plain
  record-Opened n b pt ct rest s short is same arrives =
      let (r, got, left) = read_tunnel-on_wire (data_record (dir_byte d) ct) s rest short arrives in
      let l = others n s.layer in
      let (opens, after) =
        open-sealed S B correct d pt ct b l is
          (InStep-trans S B same (InStep-sym S B (undisturbed n s.layer))) in
      let (w, e, sent) = c.writes s.plain pt in
      record {
        next = record { reader = r; plain = w; layer = (open_record S B d ct l).1 };
        goes_on = rw (got, opens, e) refl;
        after = after;
        behind = left;
        given = sent;
      }

  -- The pump has opened chunks, `k` rounds are left, and `rest` is to be read.
  pub record Reached (n : ℕ) (ps : List (List ℕ × List ℕ)) (s : Down S B I) (rest : List ℕ)
      : Type 0 where
    pub k : ℕ
    pub s' : Down S B I
    pub rounds : k + length ps ≡ n
    pub goes_on : down_loop S B I d others n s ≡ down_loop S B I d others k s'
    pub behind : c.pending s'.reader ≡ rest
    pub given : c.sent s'.plain ≡ c.sent s.plain ++ texts S B ps

  -- A round for every chunk, and the plain side was given the text.
  pub down_loop-records :
      (n : ℕ) (a : RecordLayer S B) (ps : List (List ℕ × List ℕ)) (s : Down S B I) (rest : List ℕ)
      → length ps ≤ n
      → All (IsShort S B d) ps
      → Sealed S B d a ps
      → InStep S B d a s.layer
      → c.pending s.reader ≡ records S B d ps ++ rest
      → Reached n ps s rest
  down_loop-records n a [] s rest fuel short sealed same arrives = record {
    k = n;
    s' = s;
    rounds = omega arith;
    goes_on = refl;
    behind = arrives;
    given = sym (append-nil (c.sent s.plain));
  }
  down_loop-records zero a (_ ∷ ps) s rest fuel short sealed same arrives = absurd (omega arith)
  down_loop-records (suc n) a ((pt, ct) ∷ ps) s rest fuel short (b, at, is, sealed) same arrives =
      let o =
        record-Opened n b pt ct (records S B d ps ++ rest) s short.0 is (InStep-trans S B at same) (
          arrives ∙ append_assoc (on_wire (data_record (dir_byte d) ct)) (records S B d ps) rest) in
      let q =
        down_loop-records n (seal S B d pt b).1 ps o.next rest (omega arith) short.1 sealed o.after
          o.behind in
      record {
        k = q.k;
        s' = q.s';
        rounds = omega (arith, q.rounds);
        goes_on = o.goes_on ∙ q.goes_on;
        behind = q.behind;
        given =
            q.given
            ∙ ap (λ x. x ++ texts S B ps) o.given
            ∙ append_assoc (c.sent s.plain) pt (texts S B ps);
      }

  pub closing_round :
      (k : ℕ) (s : Down S B I) (rest : List ℕ)
      → 0 < k
      → c.pending s.reader ≡ on_wire close ++ rest
      → (s' : Down S B I) × (down_loop S B I d others k s ≡ (ok (some tt), s'))
        × (c.sent s'.plain ≡ c.sent s.plain)
  unfolding down_loop down_frame finish_down
  closing_round zero s rest h arrives = absurd (omega arith)
  closing_round (suc k) s rest h arrives =
      let (r, got, left) = read_tunnel-on_wire close s rest (close-IsSendable S B) arrives in
      let (w, e, sent) = c.shuts s.plain in (record s { reader = r; plain = w }, rw (got, e), sent)

  -- With a round for every chunk and one for the closing frame, the pump ends, and the plain side
  -- was given the text.
  pub down_loop-texts :
      (n : ℕ) (a : RecordLayer S B) (ps : List (List ℕ × List ℕ)) (s : Down S B I) (rest : List ℕ)
      → length ps < n
      → All (IsShort S B d) ps
      → Sealed S B d a ps
      → InStep S B d a s.layer
      → c.pending s.reader ≡ wire S B d ps ++ rest
      → (s' : Down S B I) × (down_loop S B I d others n s ≡ (ok (some tt), s'))
        × (c.sent s'.plain ≡ c.sent s.plain ++ texts S B ps)
  down_loop-texts n a ps s rest fuel short sealed same arrives =
      let q = down_loop-records n a ps s (on_wire close ++ rest) (omega arith) short sealed same (
        arrives
        ∙ ap (λ x. x ++ rest) (wire-records S B d ps)
        ∙ append_assoc (records S B d ps) (on_wire close) rest) in
      let (s', done, same_sent) = closing_round q.k q.s' rest (omega (arith, q.rounds)) q.behind in
      (s', q.goes_on ∙ done, same_sent ∙ q.given)
