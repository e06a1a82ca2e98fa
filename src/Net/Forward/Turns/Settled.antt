-- ===== src/Net/Forward/Turns/Settled.antt =====
-- Where `try_join!` has an answer, no pump has another round.
use ort.Prelude.{◌≡◌, refl, sym, ap, ◌∙◌, List, [], ◌∷◌, ◌++◌, none, some, false, if◌then◌else◌}
use mathlib.Core.Path.{subst}
use ort.Core.Suite.Cipher.{CipherSuite, Blake3}
use ort.Core.Pool.{Direction}
use ort.Net.Error.{OrtResult}
use ort.Net.Stream.{Stream}
use ort.Net.Forward.Turns.{
  Phase, awaiting, running, ended, failed, Turn, up_turn, down_turn, Joint, move_up, move_down,
  is_failed, turn, turns, answer,
}

pub no_answer : (u v : Phase) → answer u v ≡ none → (is_failed u ≡ false) × (is_failed v ≡ false)
unfolding answer is_failed
no_answer (failed e) v h = absurd (cc h)
no_answer (awaiting x) (failed e) h = absurd (cc h)
no_answer running (failed e) h = absurd (cc h)
no_answer ended (failed e) h = absurd (cc h)
no_answer ended ended h = absurd (cc h)
no_answer ended running h = (refl, refl)
no_answer ended (awaiting x) h = (refl, refl)
no_answer running running h = (refl, refl)
no_answer running ended h = (refl, refl)
no_answer running (awaiting x) h = (refl, refl)
no_answer (awaiting x) running h = (refl, refl)
no_answer (awaiting x) ended h = (refl, refl)
no_answer (awaiting x) (awaiting y) h = (refl, refl)

module _ (S : CipherSuite) (B : Blake3) (I : Stream) (d : Direction) where
  -- Where there is an answer, no pump has another round.
  answered-moves :
      (u v : Phase) (t : Joint S B I) (r : OrtResult (Unit {0}))
      → answer u v ≡ some r
      → ((if is_failed v then t else move_up S B I d u t) ≡ t)
        × ((if is_failed u then t else move_down S B I d v t) ≡ t)
  unfolding answer is_failed move_up move_down
  answered-moves (failed e) (failed e') t r h = (refl, refl)
  answered-moves (failed e) running t r h = (refl, refl)
  answered-moves (failed e) ended t r h = (refl, refl)
  answered-moves (failed e) (awaiting x) t r h = (refl, refl)
  answered-moves (awaiting x) (failed e) t r h = (refl, refl)
  answered-moves running (failed e) t r h = (refl, refl)
  answered-moves ended (failed e) t r h = (refl, refl)
  answered-moves ended ended t r h = (refl, refl)
  answered-moves ended running t r h = absurd (cc h)
  answered-moves ended (awaiting x) t r h = absurd (cc h)
  answered-moves running running t r h = absurd (cc h)
  answered-moves running ended t r h = absurd (cc h)
  answered-moves running (awaiting x) t r h = absurd (cc h)
  answered-moves (awaiting x) running t r h = absurd (cc h)
  answered-moves (awaiting x) ended t r h = absurd (cc h)
  answered-moves (awaiting x) (awaiting y) t r h = absurd (cc h)

  answered-turn :
      (x : Turn) (t : Joint S B I) (r : OrtResult (Unit {0}))
      → answer t.up t.down ≡ some r
      → turn S B I d x t ≡ t
  unfolding turn
  answered-turn up_turn t r h = (answered-moves t.up t.down t r h).0
  answered-turn down_turn t r h = (answered-moves t.up t.down t r h).1

  pub answered-turns :
      (ts : List Turn) (t : Joint S B I) (r : OrtResult (Unit {0}))
      → answer t.up t.down ≡ some r
      → turns S B I d ts t ≡ t
  unfolding turns
  answered-turns [] t r h = refl
  answered-turns (x ∷ ts) t r h =
      ap (turns S B I d ts) (answered-turn x t r h) ∙ answered-turns ts t r h

  pub up_turn-moves :
      (t : Joint S B I) → is_failed t.down ≡ false → turn S B I d up_turn t ≡ move_up S B I d t.up t
  unfolding turn
  up_turn-moves t h = rw h refl

  pub down_turn-moves :
      (t : Joint S B I)
      → is_failed t.up ≡ false
      → turn S B I d down_turn t ≡ move_down S B I d t.down t
  unfolding turn
  down_turn-moves t h = rw h refl

  -- There is an answer, and nothing moves from there on.
  abbrev pub Answered : Joint S B I → Type 0
  Answered t =
      (r : OrtResult (Unit {0})) × (answer t.up t.down ≡ some r)
      × ((more : List Turn) → turns S B I d more t ≡ t)

  pub stays-Answered :
      (ts : List Turn) (t : Joint S B I) (r : OrtResult (Unit {0}))
      → answer t.up t.down ≡ some r
      → Answered (turns S B I d ts t)
  stays-Answered ts t r e =
      subst Answered (sym (answered-turns ts t r e)) (r, e, λ more. answered-turns more t r e)

  pub turns-append :
      (ts us : List Turn) (t : Joint S B I)
      → turns S B I d (ts ++ us) t ≡ turns S B I d us (turns S B I d ts t)
  unfolding turns
  turns-append [] us t = refl
  turns-append (x ∷ ts) us t = turns-append ts us (turn S B I d x t)

  -- Turns behind an answer change nothing.
  pub turns-behind :
      (ts us : List Turn) (t : Joint S B I) (r : OrtResult (Unit {0}))
      → answer (turns S B I d ts t).up (turns S B I d ts t).down ≡ some r
      → turns S B I d (ts ++ us) t ≡ turns S B I d ts t
  turns-behind ts us t r e = turns-append ts us t ∙ answered-turns us (turns S B I d ts t) r e
