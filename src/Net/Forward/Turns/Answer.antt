-- ===== src/Net/Forward/Turns/Answer.antt =====
-- `try_join!` answers once both pumps have had turns enough, and keeps to its answer.
use ort.Prelude.{
  ℕ, suc, ◌≡◌, ◌<◌, refl, sym, List, [], ◌∷◌, length, Option, none, some, ok, err, inl, inr,
  Option-cases, arith,
}
use mathlib.Core.Path.{subst}
use ort.Core.Suite.Cipher.{CipherSuite, Blake3}
use ort.Core.Pool.{Direction}
use ort.Net.Error.{OrtResult}
use ort.Net.Stream.{Stream, IsOrdered}
use ort.Net.Forward.Turns.{
  Phase, awaiting, running, ended, failed, Turn, up_turn, down_turn, phase_of, Joint, of_up,
  of_down, move_up, move_down, turns, answer,
}
use ort.Net.Forward.Turns.Settled.{
  no_answer, up_turn-moves, down_turn-moves, Answered, stays-Answered,
}
use ort.Net.Forward.Turns.Ends.{left, up_round-Shrinks, down_round-Shrinks, ack_round-Shrinks}

-- How many turns each pump is given.
unfoldable pub ups : List Turn → ℕ
ups [] = 0
ups (up_turn ∷ ts) = suc (ups ts)
ups (down_turn ∷ ts) = ups ts

unfoldable pub downs : List Turn → ℕ
downs [] = 0
downs (up_turn ∷ ts) = downs ts
downs (down_turn ∷ ts) = suc (downs ts)

-- A pump with `n` turns to come and `k` bytes to read.
abbrev Enough : ℕ → ℕ → Phase → Type 0
Enough n k (awaiting expected) = k < n
Enough n k running = k < n
Enough n k ended = Unit
Enough n k (failed e) = Unit

-- The pump to the tunnel awaits nothing.
abbrev pub Goes : Phase → Type 0
Goes (awaiting expected) = ⊥
Goes running = Unit
Goes ended = Unit
Goes (failed e) = Unit

answer-Enough :
    (u v : Phase) (k k' : ℕ)
    → Enough 0 k u
    → Enough 0 k' v
    → (r : OrtResult (Unit {0})) × (answer u v ≡ some r)
unfolding answer
answer-Enough ended ended k k' h h' = (ok tt, refl)
answer-Enough ended (failed e) k k' h h' = (err e, refl)
answer-Enough (failed e) v k k' h h' = (err e, refl)
answer-Enough ended running k k' h h' = absurd (omega arith)
answer-Enough ended (awaiting x) k k' h h' = absurd (omega arith)
answer-Enough running v k k' h h' = absurd (omega arith)
answer-Enough (awaiting x) v k k' h h' = absurd (omega arith)

module _ (S : CipherSuite) (B : Blake3) (I : Stream) (d : Direction) where
  module _ (c : IsOrdered I) where
    abbrev to_read : I.Reader → ℕ
    to_read r = left S B I c r

    phase-Enough :
        (n k k' : ℕ) (r : OrtResult (Option (Unit {0})))
        → (r ≡ ok none → k' < k)
        → k < suc n
        → Enough n k' (phase_of r) × Goes (phase_of r)
    phase-Enough n k k' (ok none) shrinks h = (omega (arith, shrinks refl), tt)
    phase-Enough n k k' (ok (some _)) shrinks h = (tt, tt)
    phase-Enough n k k' (err e) shrinks h = (tt, tt)

    -- A turn of the pump to the tunnel uses up a byte to read, or is its last.
    record UpMoved (n : ℕ) (t t1 : Joint S B I) : Type 0 where
      pub goes : Goes t1.up
      pub enough : Enough n (to_read t1.pr) t1.up
      pub reader : t1.reader ≡ t.reader
      pub down : t1.down ≡ t.down

    move_up-UpMoved :
        (n : ℕ) (u : Phase) (t : Joint S B I)
        → t.up ≡ u
        → Goes u
        → Enough (suc n) (to_read t.pr) u
        → UpMoved n t (move_up S B I d u t)
    unfolding move_up
    move_up-UpMoved n (awaiting x) t e goes h = absurd goes
    move_up-UpMoved n running t e goes h =
        let (k, g) =
          phase-Enough n (to_read t.pr) _ _ (up_round-Shrinks S B I c d (of_up S B I t)) h in
        record { goes = g; enough = k; reader = refl; down = refl }
    move_up-UpMoved n ended t e goes h = record {
      goes = subst Goes (sym e) tt;
      enough = subst (Enough n (to_read t.pr)) (sym e) tt;
      reader = refl;
      down = refl;
    }
    move_up-UpMoved n (failed x) t e goes h = record {
      goes = subst Goes (sym e) tt;
      enough = subst (Enough n (to_read t.pr)) (sym e) tt;
      reader = refl;
      down = refl;
    }

    record DownMoved (n : ℕ) (t t1 : Joint S B I) : Type 0 where
      pub enough : Enough n (to_read t1.reader) t1.down
      pub pr : t1.pr ≡ t.pr
      pub up : t1.up ≡ t.up

    move_down-DownMoved :
        (n : ℕ) (v : Phase) (t : Joint S B I)
        → t.down ≡ v
        → Enough (suc n) (to_read t.reader) v
        → DownMoved n t (move_down S B I d v t)
    unfolding move_down
    move_down-DownMoved n (awaiting x) t e h = record {
      enough =
          (phase-Enough n (to_read t.reader) _ _ (ack_round-Shrinks S B I c d x (of_down S B I t))
            h).0;
      pr = refl;
      up = refl;
    }
    move_down-DownMoved n running t e h = record {
      enough =
          (phase-Enough n (to_read t.reader) _ _ (down_round-Shrinks S B I c d (of_down S B I t))
            h).0;
      pr = refl;
      up = refl;
    }
    move_down-DownMoved n ended t e h = record {
      enough = subst (Enough n (to_read t.reader)) (sym e) tt;
      pr = refl;
      up = refl;
    }
    move_down-DownMoved n (failed x) t e h = record {
      enough = subst (Enough n (to_read t.reader)) (sym e) tt;
      pr = refl;
      up = refl;
    }

    turns-Enough :
        (ts : List Turn) (t : Joint S B I)
        → Goes t.up
        → Enough (ups ts) (to_read t.pr) t.up
        → Enough (downs ts) (to_read t.reader) t.down
        → Answered S B I d (turns S B I d ts t)
    unfolding turns ups downs
    turns-Enough [] t goes h h' =
        let (r, e) = answer-Enough t.up t.down _ _ h h' in stays-Answered S B I d [] t r e
    turns-Enough (up_turn ∷ ts) t goes h h' = elim (Option-cases (answer t.up t.down)) [
      | inr (r, e) ↦ stays-Answered S B I d (up_turn ∷ ts) t r e
      | inl open_yet ↦
          let m = move_up-UpMoved (ups ts) t.up t refl goes h in
          let t1 = move_up S B I d t.up t in
          subst (λ x. Answered S B I d (turns S B I d ts x))
            (sym (up_turn-moves S B I d t (no_answer t.up t.down open_yet).1))
            (turns-Enough ts t1 m.goes m.enough (
              subst (λ r. Enough (downs ts) (to_read r) t1.down) (sym m.reader)
                (subst (Enough (downs ts) (to_read t.reader)) (sym m.down) h')))
    ]
    turns-Enough (down_turn ∷ ts) t goes h h' = elim (Option-cases (answer t.up t.down)) [
      | inr (r, e) ↦ stays-Answered S B I d (down_turn ∷ ts) t r e
      | inl open_yet ↦
          let m = move_down-DownMoved (downs ts) t.down t refl h' in
          let t1 = move_down S B I d t.down t in
          subst (λ x. Answered S B I d (turns S B I d ts x))
            (sym (down_turn-moves S B I d t (no_answer t.up t.down open_yet).0))
            (turns-Enough ts t1 (subst Goes (sym m.up) goes)
              (subst (λ r. Enough (ups ts) (to_read r) t1.up) (sym m.pr)
                (subst (Enough (ups ts) (to_read t.pr)) (sym m.up) h))
              m.enough)
    ]

    lt-Enough : (n k : ℕ) (p : Phase) → k < n → Enough n k p
    lt-Enough n k (awaiting x) h = h
    lt-Enough n k running h = h
    lt-Enough n k ended h = tt
    lt-Enough n k (failed e) h = tt

    -- `forward` ends, whatever the peers send, whatever fails and in whatever order the pumps have
    -- their rounds: once each pump was given more turns than there are bytes to read for it, there
    -- is an answer, and it stays.
    pub turns-Answered :
        (ts : List Turn) (t : Joint S B I)
        → Goes t.up
        → length (c.pending t.pr) < ups ts
        → length (c.pending t.reader) < downs ts
        → Answered S B I d (turns S B I d ts t)
    turns-Answered ts t goes h h' =
        turns-Enough ts t goes (lt-Enough _ _ t.up h) (lt-Enough _ _ t.down h')
