-- ===== src/Net/Forward/Turns/Acked.antt =====
-- The pump from the tunnel among the turns of both, where it first awaits an acknowledgement, and this
-- comes.
use ort.Prelude.{
  ℕ, ◌≡◌, refl, sym, ap, ◌∙◌, List, [], ◌∷◌, ◌++◌, true, false, ◌⊎◌, inl, inr, Bool-cases,
}
use mathlib.Core.Path.{subst}
use ort.Core.Suite.Cipher.{CipherSuite, Blake3, IsCorrect, IsCompact}
use ort.Core.Pool.{Direction, flip}
use ort.Core.Record.{RecordLayer}
use ort.Proto.Messages.Frames.{server_ack}
use ort.Net.Stream.{Stream, IsReliable}
use ort.Net.Session.Wire.{IsSendable, on_wire}
use ort.Net.Forward.{down, down_loop}
use ort.Net.Forward.Through.{down_confirmed}
use ort.Net.Forward.Turns.{
  awaiting, running, Turn, up_turn, down_turn, Joint, of_down, set_down, ack_round, move_down,
  is_failed, turn, turns,
}
use ort.Net.Forward.Turns.Pump.{Aside, Follows, Aside-Follows, turns-Follows}
use ort.Net.Forward.Turns.OfDown
use ort.Net.Forward.Turns.Interleaved.{IsDownRun}

module _ (S : CipherSuite) (B : Blake3) (I : Stream) (correct : IsCorrect S) (compact : IsCompact S)
    (c : IsReliable I) (d : Direction) (expected : List ℕ)
    (sendable : IsSendable (server_ack expected)) where
  abbrev past : I.Reader → Joint S B I → Joint S B I
  past r t = record t { reader = r; down = running }

  abbrev DownFollows : Joint S B I → Joint S B I → Type 0
  DownFollows t t' =
      Follows S B I d (flip d) (OfDown.Ends S B I d) (OfDown.mine S B I d)
        (OfDown.down_rounds S B I d) (OfDown.down_run S B I d) (OfDown.down_run-IsRun S B I d)
        (OfDown.down-IsPump S B I d) t t'

  ack-passes :
      (t : Joint S B I) (rest : List ℕ)
      → t.down ≡ awaiting expected
      → is_failed t.up ≡ false
      → c.pending t.reader ≡ on_wire (server_ack expected) ++ rest
      → (r : I.Reader) × (c.pending r ≡ rest) × (turn S B I d down_turn t ≡ past r t)
  unfolding turn move_down ack_round down down_loop
  ack-passes t rest waits fine arrives =
      let alone = λ (n : ℕ) (l : RecordLayer S B). l in
      let (r, left, e) =
        down_confirmed S B I correct compact c (flip d) alone alone
          (λ n l. record { key = refl; pool = refl }) (λ n l. record { key = refl; pool = refl })
          expected rest (of_down S B I t) 0 sendable arrives in
      (r, left, rw fine (ap (λ p. move_down S B I d p t) waits ∙ ap (λ x. set_down S B I x t) e))

  failed-stays : (t : Joint S B I) → is_failed t.up ≡ true → turn S B I d down_turn t ≡ t
  unfolding turn
  failed-stays t e = rw e refl

  -- The pump still awaits the acknowledgement, or it has done what it does past it.
  pub turns-acked :
      (ts : List Turn) (t : Joint S B I) (rest : List ℕ)
      → t.down ≡ awaiting expected
      → c.pending t.reader ≡ on_wire (server_ack expected) ++ rest
      → ((turns S B I d ts t).down ≡ awaiting expected)
        ⊎ ((r : I.Reader) × (c.pending r ≡ rest) × DownFollows (past r t) (turns S B I d ts t))
  unfolding turns
  turns-acked [] t rest waits arrives = inl waits
  turns-acked (up_turn ∷ ts) t rest waits arrives =
      let t1 = turn S B I d up_turn t in
      let a = OfDown.turn-Aside S B I d t in
      elim (turns-acked ts t1 rest (ap (λ m. m.0) a.same ∙ waits)
        (ap (λ m. c.pending m.1.0) a.same ∙ arrives)) [
          | inl still ↦ inl still
          | inr (r, left, follows) ↦
              let b : Aside S B I d (flip d) (OfDown.Ends S B I d) (OfDown.mine S B I d) (past r t)
                  (past r t1) =
                record {
                  uses = a.uses;
                  same = λ i. (running, (r, (a.same i).1.1));
                  layered = a.layered;
                } in
              inr (
                r,
                left,
                Aside-Follows S B I d (flip d) (OfDown.Ends S B I d) (OfDown.mine S B I d)
                    (OfDown.down_rounds S B I d) (OfDown.down_run S B I d)
                    (OfDown.down_run-IsRun S B I d) (OfDown.down-IsPump S B I d) (past r t)
                    (past r t1) (turns S B I d ts t1) b follows,
              )
        ]
  turns-acked (down_turn ∷ ts) t rest waits arrives = elim (Bool-cases (is_failed t.up)) [
    | inl gone ↦
        let same = failed-stays t gone in
        elim (turns-acked ts t rest waits arrives) [
          | inl still ↦ inl (ap (λ x. (turns S B I d ts x).down) same ∙ still)
          | inr (r, left, follows) ↦
              inr (
                r,
                left,
                subst (λ x. DownFollows (past r t) (turns S B I d ts x)) (sym same) follows,
              )
        ]
    | inr fine ↦
        let (r, left, passes) = ack-passes t rest waits fine arrives in
        inr (
          r,
          left,
          subst (λ x. DownFollows (past r t) (turns S B I d ts x)) (sym passes)
              (turns-Follows S B I d (flip d) (OfDown.Ends S B I d) (OfDown.mine S B I d)
                (OfDown.down_rounds S B I d) (OfDown.down_run S B I d)
                (OfDown.down_run-IsRun S B I d) (OfDown.down-IsPump S B I d) ts (past r t) refl),
        )
  ]

  -- As a run of its own.
  pub acked-IsDownRun :
      (r : I.Reader) (t t' : Joint S B I)
      → DownFollows (past r t) t'
      → IsDownRun S B I d (past r t) t'
  acked-IsDownRun r t t' (n, uses, h) = record {
    n = n;
    uses = uses;
    answers = ap (λ x. x.0) h;
    reads = ap (λ x. x.1.0) h;
    writes = ap (λ x. x.1.1) h;
  }
