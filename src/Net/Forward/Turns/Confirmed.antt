-- ===== src/Net/Forward/Turns/Confirmed.antt =====
-- Both ends of a tunnel where the client awaits the acknowledgement that the server has sent.
use ort.Prelude.{
  ℕ, ◌≡◌, ◌<◌, refl, sym, ap, ◌∙◌, List, ◌++◌, none, some, ok, length, IsBytes, inl, inr,
}
use mathlib.Core.Path.{subst}
use ort.Core.Suite.Cipher.{CipherSuite, Blake3, IsCorrect, IsCompact}
use ort.Core.Pool.{client_to_server, server_to_client, flip}
use ort.Core.Record.Peers.{InStep}
use ort.Proto.Messages.Frames.{server_ack}
use ort.Net.Stream.{Stream, IsSteady}
use ort.Net.Session.Wire.{IsSendable, on_wire}
use ort.Net.Forward.Turns.{Phase, awaiting, running, Turn, Joint, turns, answer}
use ort.Net.Forward.Turns.Interleaved.{down-IsDownRun}
use ort.Net.Forward.Turns.Answer.{turns-Answered, ups, downs, Goes}
use ort.Net.Forward.Turns.Acked.{turns-acked, acked-IsDownRun}
use ort.Net.Forward.Turns.Both.{IsFine, carries, sends-IsFine, turns-answer}

waits_on : (u v : Phase) (expected : List ℕ) → IsFine u → v ≡ awaiting expected → answer u v ≡ none
unfolding answer
waits_on u v expected (inl e) f = rw (e, f) refl
waits_on u v expected (inr e) f = rw (e, f) refl

module _ (S : CipherSuite) (B : Blake3) (I : Stream) (correct : IsCorrect S) (compact : IsCompact S)
    (c : IsSteady I) where
  -- `forward` at both ends of a 0-RTT tunnel, each with both pumps under `try_join!`, where the
  -- client awaits the acknowledgement and this is the first frame that it reads: however the rounds
  -- of the pumps interleave at each end, both ends answer without an error, and in both directions
  -- the plain side receives what the other end's plain side wrote before it closed, whatever the
  -- bytes and however many. The suite is correct and compact, the record layers are in step in both
  -- directions, the acknowledgement is within the limits of the format, the client reads from the
  -- tunnel what the server writes to it behind the acknowledgement, the server reads what the client
  -- writes to it, and no connection fails. Each pump has more turns than there are bytes to read for
  -- it.
  pub turns-Confirmed :
      (ts ts' : List Turn) (t t' : Joint S B I) (expected rest : List ℕ)
      → t.up ≡ running
      → t.down ≡ awaiting expected
      → t'.up ≡ running
      → t'.down ≡ running
      → IsSendable (server_ack expected)
      → c.reliable.pending t.reader ≡ on_wire (server_ack expected) ++ rest
      → InStep S B client_to_server t.layer t'.layer
      → InStep S B server_to_client t'.layer t.layer
      → IsBytes (c.reliable.pending t.pr)
      → IsBytes (c.reliable.pending t'.pr)
      → c.reliable.sent (turns S B I client_to_server ts t).writer
        ≡ c.reliable.sent t.writer ++ c.reliable.pending t'.reader
      → c.reliable.sent (turns S B I server_to_client ts' t').writer
        ≡ c.reliable.sent t'.writer ++ rest
      → length (c.reliable.pending t.pr) < ups ts
      → length (c.reliable.pending t.reader) < downs ts
      → length (c.reliable.pending t'.pr) < ups ts'
      → length (c.reliable.pending t'.reader) < downs ts'
      → (answer (turns S B I client_to_server ts t).up (turns S B I client_to_server ts t).down
          ≡ some (ok tt))
        × (answer
              (turns S B I server_to_client ts' t').up
              (turns S B I server_to_client ts' t').down
            ≡ some (ok tt))
        × (c.reliable.sent (turns S B I server_to_client ts' t').pw
            ≡ c.reliable.sent t'.pw ++ c.reliable.pending t.pr)
        × (c.reliable.sent (turns S B I client_to_server ts t).pw
            ≡ c.reliable.sent t.pw ++ c.reliable.pending t'.pr)
  unfolding flip
  turns-Confirmed ts ts' t t' expected rest up_goes waits up_goes' down_goes' sendable arrives same
        same' bytes bytes' wired wired' n m n' m' =
      let client_end = turns S B I client_to_server ts t in
      let server_end = turns S B I server_to_client ts' t' in
      let there =
        carries S B I correct compact c server_to_client ts t t' server_end up_goes
          (down-IsDownRun S B I server_to_client ts' t' down_goes') same bytes wired in
      let (_, answers, _) =
        turns-Answered S B I client_to_server c.ordered ts t (subst Goes (sym up_goes) tt)
          (subst (λ x. length x < ups ts) (sym (c.same_pending t.pr)) n)
          (subst (λ x. length x < downs ts) (sym (c.same_pending t.reader)) m) in
      let fine = sends-IsFine S B I correct compact c client_to_server ts t up_goes bytes in
      elim (turns-acked S B I correct compact c.reliable client_to_server expected sendable ts t
        rest waits arrives) [
          | inl still ↦
              absurd (cc (answers, waits_on client_end.up client_end.down expected fine still))
          | inr (r, left, follows) ↦
              let run =
                acked-IsDownRun S B I correct compact c.reliable client_to_server expected sendable
                  r t client_end follows in
              let back =
                carries S B I correct compact c client_to_server ts' t'
                  (record t { reader = r; down = running }) client_end up_goes' run same' bytes'
                  (wired' ∙ ap (λ x. c.reliable.sent t'.writer ++ x) (sym left)) in
              let (u, v, e) =
                turns-answer S B I correct compact c client_to_server ts t up_goes n m fine
                  back.receives in
              let (u', v', e') =
                turns-answer S B I correct compact c server_to_client ts' t' up_goes' n' m'
                  back.sends there.receives in
              (e, e', there.delivers u v', back.delivers u' v)
        ]
