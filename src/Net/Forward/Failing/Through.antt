-- ===== src/Net/Forward/Failing/Through.antt =====
-- Both ends of a tunnel, each with both pumps by turns, where every connection may fail at any time.
use ort.Prelude.{ℕ, ◌≡◌, refl, sym, ap, ◌∙◌, List, ◌++◌, append_assoc, append_injective, IsBytes}
use mathlib.Core.Path.{subst}
use ort.Core.Suite.Cipher.{CipherSuite, Blake3, IsCorrect, IsCompact}
use ort.Core.Pool.{Direction, flip}
use ort.Core.Record.{RecordLayer}
use ort.Core.Record.Peers.{InStep}
use ort.Net.Stream.{Stream, IsOrdered}
use ort.Net.Forward.{Up, Down, up, down_loop}
use ort.Net.Forward.Chunks.{IsUndisturbed}
use ort.Net.Forward.Shared.{scheduled-IsUndisturbed}
use ort.Net.Forward.Turns.{Joint, Turn, of_up, of_down, running, turns}
use ort.Net.Forward.Turns.Interleaved.{up-IsUpRun, down-IsDownRun}
use ort.Net.Forward.Failing.{up-part}
use ort.Net.Forward.Failing.Delivers.{Given, down_loop-Given}

module _ (S : CipherSuite) (B : Blake3) (I : Stream) (correct : IsCorrect S) (compact : IsCompact S)
    (c : IsOrdered I) where
  Given-front :
      (text front rest : List ℕ) (w w' : I.Writer)
      → text ≡ front ++ rest
      → Given S B I c front w w'
      → Given S B I c text w w'
  Given-front text front rest w w' whole (t, given, (more, is)) =
      (t, given, (more ++ rest, whole ∙ ap (λ x. x ++ rest) is ∙ append_assoc t more rest))

  -- One direction, one pump at each end.
  one_way :
      (d : Direction) (here there : ℕ → RecordLayer S B → RecordLayer S B)
      → IsUndisturbed S B d here
      → IsUndisturbed S B d there
      → (n m : ℕ) (u : Up S B I) (s : Down S B I) (lost : List ℕ) → InStep S B d u.layer s.layer
      → IsBytes (c.pending u.plain)
      → c.sent (up S B I d here n u).1.writer ≡ c.sent u.writer ++ (c.pending s.reader ++ lost)
      → Given S B I c (c.pending u.plain) s.plain (down_loop S B I d there m s).1.plain
  one_way d here there undisturbed undisturbed' n m u s lost same bytes wired =
      let p = up-part S B I compact c d here undisturbed n u bytes in
      let (_, arrived) =
        append_injective (c.sent u.writer) (c.sent u.writer) (c.pending s.reader ++ lost) p.part
          refl (sym wired ∙ p.written) in
      Given-front (c.pending u.plain) _ p.texts_read.0 s.plain _ p.texts_read.1 (
        down_loop-Given S B I c correct d there undisturbed' m u.layer p.chunks s
          (lost ++ p.of_wire.0) p.short p.sealed same
          (sym (append_assoc (c.pending s.reader) lost p.of_wire.0)
            ∙ ap (λ x. x ++ p.of_wire.0) arrived
            ∙ sym p.of_wire.1))

  -- Whatever fails and whenever, and however the rounds of the two pumps of each end interleave: at
  -- any time what an end has given to its plain side is a front of what the other end's plain side
  -- wrote. The suite is correct and compact, the pump of this direction runs at both ends, past the
  -- acknowledgement, the record layers are in step in this direction, and what the one end will
  -- have read from the tunnel is a front of what the other end writes there.
  pub turns-Given :
      (d : Direction) (ts ts' : List Turn) (t t' : Joint S B I) (lost : List ℕ)
      → t.up ≡ running
      → t'.down ≡ running
      → InStep S B (flip d) t.layer t'.layer
      → IsBytes (c.pending t.pr)
      → c.sent (turns S B I (flip d) ts t).writer ≡ c.sent t.writer ++ (c.pending t'.reader ++ lost)
      → Given S B I c (c.pending t.pr) t'.pw (turns S B I d ts' t').pw
  turns-Given d ts ts' t t' lost sends receives same bytes wired =
      let here = up-IsUpRun S B I (flip d) ts t sends in
      let there = down-IsDownRun S B I d ts' t' receives in
      subst (Given S B I c (c.pending t.pr) t'.pw) there.writes (
        one_way (flip d) _ _ (scheduled-IsUndisturbed S B (flip d) here.uses)
          (scheduled-IsUndisturbed S B (flip d) there.uses) here.n there.n (of_up S B I t)
          (of_down S B I t') lost same bytes (ap c.sent here.writes ∙ wired))
