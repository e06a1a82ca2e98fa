-- ===== src/Net/Forward/Turns/Both.antt =====
-- Both ends of a tunnel, each with both pumps under `try_join!`, on connections that do not fail.
use ort.Prelude.{
  ℕ, ◌≡◌, ◌<◌, refl, sym, ap, ◌∙◌, List, ◌++◌, append_injective, Option, none, some, ok, length,
  IsBytes, ◌⊎◌, inl, inr,
}
use mathlib.Core.Path.{subst}
use ort.Core.Suite.Cipher.{CipherSuite, Blake3, IsCorrect, IsCompact}
use ort.Core.Pool.{Direction, client_to_server, server_to_client, flip}
use ort.Core.Record.Peers.{InStep}
use ort.Net.Error.{OrtResult}
use ort.Net.Stream.{Stream, IsSteady}
use ort.Net.Forward.Shared.{scheduled-IsUndisturbed}
use ort.Net.Forward.Chunks.{records}
use ort.Net.Forward.Steady.Ups.{Stands, up-IsSteady}
use ort.Net.Forward.Steady.Downs.{IsTail, down_loop-Settles}
use ort.Net.Forward.Turns.{
  Phase, running, ended, Turn, phase_of, Joint, of_up, of_down, turns, answer,
}
use ort.Net.Forward.Turns.Interleaved.{IsDownRun, up-IsUpRun, down-IsDownRun}
use ort.Net.Forward.Turns.Answer.{turns-Answered, ups, downs, Goes}

-- A pump that runs, or has ended without an error.
abbrev pub IsFine : Phase → Type 0
IsFine p = (p ≡ running) ⊎ (p ≡ ended)

ended_or_open :
    (u v : Phase)
    → IsFine u
    → IsFine v
    → ((u ≡ ended) × (v ≡ ended) × (answer u v ≡ some (ok tt))) ⊎ (answer u v ≡ none)
unfolding answer
ended_or_open u v (inr e) (inr f) = inl (e, f, rw (e, f) refl)
ended_or_open u v (inl e) (inl f) = inr (rw (e, f) refl)
ended_or_open u v (inl e) (inr f) = inr (rw (e, f) refl)
ended_or_open u v (inr e) (inl f) = inr (rw (e, f) refl)

both_ended :
    (u v : Phase) (r : OrtResult (Unit {0}))
    → IsFine u
    → IsFine v
    → answer u v ≡ some r
    → (u ≡ ended) × (v ≡ ended) × (answer u v ≡ some (ok tt))
both_ended u v r fine fine' h = elim (ended_or_open u v fine fine') [
  | inl done ↦ done
  | inr open_yet ↦ absurd (cc (h, open_yet))
]

module _ (S : CipherSuite) (B : Blake3) (I : Stream) (correct : IsCorrect S) (compact : IsCompact S)
    (c : IsSteady I) (d : Direction) (ts : List Turn) (t t' t1' : Joint S B I) where
  -- One direction, whatever turns were taken: no pump of it has failed, and if both have ended all
  -- of the text has arrived.
  pub record Carries : Type 0 where
    pub sends : IsFine (turns S B I (flip d) ts t).up
    pub receives : IsFine t1'.down
    pub delivers :
        (turns S B I (flip d) ts t).up ≡ ended
        → t1'.down ≡ ended
        → c.reliable.sent t1'.pw ≡ c.reliable.sent t'.pw ++ c.reliable.pending t.pr

  Stands-IsFine :
      {r : OrtResult (Option (Unit {0}))} {tail text all : List ℕ} {p : Phase}
      → phase_of r ≡ p
      → Stands S B I compact c.reliable (flip d) r tail text all
      → IsFine p × IsTail tail × (p ≡ ended → text ≡ all)
  Stands-IsFine is (inl (going, bare)) =
      let at : _ ≡ running = sym is ∙ ap phase_of going in
      (inl at, inl bare, λ e. absurd (cc (sym at ∙ e)))
  Stands-IsFine is (inr (done, closed, all_sent)) =
      (inr (sym is ∙ ap phase_of done), inr closed, λ _. all_sent)

  pub carries :
      t.up ≡ running
      → IsDownRun S B I d t' t1'
      → InStep S B (flip d) t.layer t'.layer
      → IsBytes (c.reliable.pending t.pr)
      → c.reliable.sent (turns S B I (flip d) ts t).writer
        ≡ c.reliable.sent t.writer ++ c.reliable.pending t'.reader
      → Carries
  carries going there same bytes wired =
      let here = up-IsUpRun S B I (flip d) ts t going in
      let p =
        up-IsSteady S B I compact c.reliable (flip d) _
          (scheduled-IsUndisturbed S B (flip d) here.uses) here.n (of_up S B I t) bytes in
      let (fine, ends, whole) = Stands-IsFine here.answers p.stands in
      let arrives =
        (append_injective (c.reliable.sent t.writer) (c.reliable.sent t.writer) _ _ refl
          (sym wired ∙ sym (ap c.reliable.sent here.writes) ∙ p.written)).1 in
      let q =
        down_loop-Settles S B I correct compact c.reliable (flip d) _
          (scheduled-IsUndisturbed S B (flip d) there.uses) there.n t.layer p.chunks
          (of_down S B I t') p.tail ends p.short p.sealed same arrives in
      elim q [
        | inl more ↦
            let at : t1'.down ≡ running = sym there.answers ∙ ap phase_of more in
            record { sends = fine; receives = inl at; delivers = λ _ e. absurd (cc (sym at ∙ e)) }
        | inr (done, given) ↦ record {
          sends = fine;
          receives = inr (sym there.answers ∙ ap phase_of done);
          delivers = λ e _.
              sym (ap c.reliable.sent there.writes)
              ∙ given
              ∙ ap (λ x. c.reliable.sent t'.pw ++ x) (whole e);
        }
      ]

module _ (S : CipherSuite) (B : Blake3) (I : Stream) (correct : IsCorrect S) (compact : IsCompact S)
    (c : IsSteady I) where
  -- What an end writes to the tunnel comes behind what was written there.
  pub turns-extends :
      (d : Direction) (ts : List Turn) (t : Joint S B I)
      → t.up ≡ running
      → IsBytes (c.reliable.pending t.pr)
      → (more : List ℕ) × (c.reliable.sent (turns S B I d ts t).writer
          ≡ c.reliable.sent t.writer ++ more)
  turns-extends d ts t going bytes =
      let here = up-IsUpRun S B I d ts t going in
      let p =
        up-IsSteady S B I compact c.reliable d _ (scheduled-IsUndisturbed S B d here.uses) here.n
          (of_up S B I t) bytes in
      (records S B d p.chunks ++ p.tail, sym (ap c.reliable.sent here.writes) ∙ p.written)

  -- No end's pump to the tunnel fails.
  pub sends-IsFine :
      (d : Direction) (ts : List Turn) (t : Joint S B I)
      → t.up ≡ running
      → IsBytes (c.reliable.pending t.pr)
      → IsFine (turns S B I d ts t).up
  sends-IsFine d ts t going bytes =
      let here = up-IsUpRun S B I d ts t going in
      let p =
        up-IsSteady S B I compact c.reliable d _ (scheduled-IsUndisturbed S B d here.uses) here.n
          (of_up S B I t) bytes in
      elim p.stands [
        | inl (goes, _) ↦ inl (sym here.answers ∙ ap phase_of goes)
        | inr h ↦ inr (sym here.answers ∙ ap phase_of h.0)
      ]

  pub turns-answer :
      (d : Direction) (ts : List Turn) (t : Joint S B I)
      → t.up ≡ running
      → length (c.reliable.pending t.pr) < ups ts
      → length (c.reliable.pending t.reader) < downs ts
      → IsFine (turns S B I d ts t).up
      → IsFine (turns S B I d ts t).down
      → ((turns S B I d ts t).up ≡ ended)
        × ((turns S B I d ts t).down ≡ ended)
        × (answer (turns S B I d ts t).up (turns S B I d ts t).down ≡ some (ok tt))
  turns-answer d ts t going fuel fuel' fine fine' =
      let (r, e, _) =
        turns-Answered S B I d c.ordered ts t (subst Goes (sym going) tt)
          (subst (λ x. length x < ups ts) (sym (c.same_pending t.pr)) fuel)
          (subst (λ x. length x < downs ts) (sym (c.same_pending t.reader)) fuel') in
      both_ended _ _ r fine fine' e

  -- `forward` at both ends of a tunnel, past the acknowledgement, each with both pumps under
  -- `try_join!`: however the rounds of the pumps interleave at each end, both ends answer without an
  -- error, and in both directions the plain side receives what the other end's plain side wrote
  -- before it closed, whatever the bytes and however many. The suite is correct and compact, the
  -- record layers are in step in both directions, each end reads from the tunnel what the other end
  -- writes to it, and no connection fails. Each pump has more turns than there are bytes to read for
  -- it.
  pub turns-Delivered :
      (ts ts' : List Turn) (t t' : Joint S B I)
      → t.up ≡ running
      → t.down ≡ running
      → t'.up ≡ running
      → t'.down ≡ running
      → InStep S B client_to_server t.layer t'.layer
      → InStep S B server_to_client t'.layer t.layer
      → IsBytes (c.reliable.pending t.pr)
      → IsBytes (c.reliable.pending t'.pr)
      → c.reliable.sent (turns S B I client_to_server ts t).writer
        ≡ c.reliable.sent t.writer ++ c.reliable.pending t'.reader
      → c.reliable.sent (turns S B I server_to_client ts' t').writer
        ≡ c.reliable.sent t'.writer ++ c.reliable.pending t.reader
      → length (c.reliable.pending t.pr) < ups ts
      → length (c.reliable.pending t.reader) < downs ts
      → length (c.reliable.pending t'.pr) < ups ts'
      → length (c.reliable.pending t'.reader) < downs ts'
      → (answer (turns S B I client_to_server ts t).up (turns S B I client_to_server ts t).down
          ≡ some (ok tt))
        × (answer
              (turns S B I server_to_client ts' t').up
              (turns S B I server_to_client ts' t').down
            ≡ some (ok tt))
        × (c.reliable.sent (turns S B I server_to_client ts' t').pw
            ≡ c.reliable.sent t'.pw ++ c.reliable.pending t.pr)
        × (c.reliable.sent (turns S B I client_to_server ts t).pw
            ≡ c.reliable.sent t.pw ++ c.reliable.pending t'.pr)
  unfolding flip
  turns-Delivered ts ts' t t' up_goes down_goes up_goes' down_goes' same same' bytes bytes' wired
        wired' n m n' m' =
      let there =
        carries S B I correct compact c server_to_client ts t t'
          (turns S B I server_to_client ts' t') up_goes
          (down-IsDownRun S B I server_to_client ts' t' down_goes') same bytes wired in
      let back =
        carries S B I correct compact c client_to_server ts' t' t
          (turns S B I client_to_server ts t) up_goes'
          (down-IsDownRun S B I client_to_server ts t down_goes) same' bytes' wired' in
      let (u, v, e) = turns-answer client_to_server ts t up_goes n m there.sends back.receives in
      let (u', v', e') =
        turns-answer server_to_client ts' t' up_goes' n' m' back.sends there.receives in
      (e, e', there.delivers u v', back.delivers u' v)
