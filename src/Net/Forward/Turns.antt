-- ===== src/Net/Forward/Turns.antt =====
-- `tokio::try_join!` of the two pumps, in the turns in which the runtime lets them run: a pump has a
-- round, both share the record layer, and the first error ends both.
pub mod Rounds
pub mod Pump
pub mod OfUp
pub mod OfDown
pub mod Interleaved
pub mod Ends
pub mod Settled
pub mod Answer
pub mod Acked
pub mod Both
pub mod Confirmed
use ort.Prelude.{
  ℕ, List, [], ◌∷◌, Bool, true, false, Option, none, some, Result, ok, err, if◌then◌else◌,
}
use ort.Core.Suite.Cipher.{CipherSuite, Blake3}
use ort.Core.Pool.{Direction, flip}
use ort.Core.Record.{RecordLayer}
use ort.Net.Error.{OrtError, OrtResult}
use ort.Net.Stream.{Stream}
use ort.Net.Forward.{Up, Down, up, down, down_loop}

-- Where a pump is.
pub data Phase : Type 0 where
  -- before the acknowledgement with this hash
  awaiting : List ℕ → Phase
  running : Phase
  ended : Phase
  failed : OrtError → Phase

pub is_failed : Phase → Bool
is_failed (failed e) = true
is_failed (awaiting expected) = false
is_failed running = false
is_failed ended = false

-- What `try_join!` answers: the error of a pump as soon as it has failed, and otherwise nothing
-- before both have ended.
unfoldable pub answer : Phase → Phase → Option (OrtResult (Unit {0}))
answer (failed e) down = some (err e)
answer (awaiting expected) (failed e) = some (err e)
answer running (failed e) = some (err e)
answer ended (failed e) = some (err e)
answer ended ended = some (ok tt)
answer ended running = none
answer ended (awaiting expected) = none
answer running down = none
answer (awaiting expected) down = none

pub data Turn : Type 0 where
  up_turn : Turn
  down_turn : Turn

-- A pump that answers nothing yet goes on.
abbrev pub phase_of : OrtResult (Option (Unit {0})) → Phase
phase_of (ok none) = running
phase_of (ok (some _)) = ended
phase_of (err e) = failed e

module _ (S : CipherSuite) (B : Blake3) (I : Stream) where
  pub record Joint : Type 0 where
    pub pr : I.Reader
    pub pw : I.Writer
    pub reader : I.Reader
    pub writer : I.Writer
    pub layer : RecordLayer S B
    pub up : Phase
    pub down : Phase

  abbrev pub of_up : Joint → Up S B I
  of_up t = record { plain = t.pr; writer = t.writer; layer = t.layer }

  abbrev pub of_down : Joint → Down S B I
  of_down t = record { reader = t.reader; plain = t.pw; layer = t.layer }

  abbrev alone : ℕ → RecordLayer S B → RecordLayer S B
  alone n l = l

  abbrev pub set_up : OrtResult (Option (Unit {0})) × Up S B I → Joint → Joint
  set_up (r, u) t = record t { pr = u.plain; writer = u.writer; layer = u.layer; up = phase_of r }

  abbrev pub set_down : OrtResult (Option (Unit {0})) × Down S B I → Joint → Joint
  set_down (r, s) t = record t {
    reader = s.reader;
    pw = s.plain;
    layer = s.layer;
    down = phase_of r;
  }

  module _ (d : Direction) where
    -- One round.
    unfoldable pub up_round : Up S B I → OrtResult (Option (Unit {0})) × Up S B I
    up_round u = up S B I d alone 1 u

    unfoldable pub down_round : Down S B I → OrtResult (Option (Unit {0})) × Down S B I
    down_round s = down_loop S B I (flip d) alone 1 s

    unfoldable pub ack_round : List ℕ → Down S B I → OrtResult (Option (Unit {0})) × Down S B I
    ack_round expected s = down S B I (flip d) (some expected) alone 0 s

    -- The turn of a pump, by its phase.
    pub move_up : Phase → Joint → Joint
    move_up running t = set_up (up_round (of_up t)) t
    move_up (awaiting expected) t = t
    move_up ended t = t
    move_up (failed e) t = t

    pub move_down : Phase → Joint → Joint
    move_down running t = set_down (down_round (of_down t)) t
    move_down (awaiting expected) t = set_down (ack_round expected (of_down t)) t
    move_down ended t = t
    move_down (failed e) t = t

    -- An error of the other pump has ended this one.
    unfoldable pub turn : Turn → Joint → Joint
    unfolding move_up move_down is_failed
    turn up_turn t = if is_failed t.down then t else move_up t.up t
    turn down_turn t = if is_failed t.up then t else move_down t.down t

    unfoldable pub turns : List Turn → Joint → Joint
    unfolding turn
    turns [] t = t
    turns (x ∷ xs) t = turns xs (turn x t)
