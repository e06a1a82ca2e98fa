-- ===== src/Net/Forward/Turns/Interleaved.antt =====
-- Of each of the two pumps by turns there is a run of its own that does the same.
use ort.Prelude.{ℕ, ◌≡◌, ap, List}
use ort.Core.Suite.Cipher.{CipherSuite, Blake3}
use ort.Core.Pool.{Direction, flip}
use ort.Net.Stream.{Stream}
use ort.Net.Forward.{up, down_loop}
use ort.Net.Forward.Shared.{Use, scheduled}
use ort.Net.Forward.Turns.{running, Turn, phase_of, Joint, of_up, of_down, turns}
use ort.Net.Forward.Turns.Pump.{turns-Follows}
use ort.Net.Forward.Turns.OfUp
use ort.Net.Forward.Turns.OfDown

module _ (S : CipherSuite) (B : Blake3) (I : Stream) (d : Direction) where
  -- In `t'` the pump to the tunnel has answered, read and written what a run of `up` does from `t`,
  -- for some number of rounds and some schedule of the other pump.
  pub record IsUpRun (t t' : Joint S B I) : Type 0 where
    pub n : ℕ
    pub uses : ℕ → List Use
    pub answers : phase_of (up S B I d (scheduled S B d uses) n (of_up S B I t)).0 ≡ t'.up
    pub reads : (up S B I d (scheduled S B d uses) n (of_up S B I t)).1.plain ≡ t'.pr
    pub writes : (up S B I d (scheduled S B d uses) n (of_up S B I t)).1.writer ≡ t'.writer

  -- The same of the pump from the tunnel.
  pub record IsDownRun (t t' : Joint S B I) : Type 0 where
    pub n : ℕ
    pub uses : ℕ → List Use
    pub answers :
        phase_of (down_loop S B I (flip d) (scheduled S B (flip d) uses) n (of_down S B I t)).0
        ≡ t'.down
    pub reads :
        (down_loop S B I (flip d) (scheduled S B (flip d) uses) n (of_down S B I t)).1.reader
        ≡ t'.reader
    pub writes :
        (down_loop S B I (flip d) (scheduled S B (flip d) uses) n (of_down S B I t)).1.plain ≡ t'.pw

  pub up-IsUpRun :
      (ts : List Turn) (t : Joint S B I) → t.up ≡ running → IsUpRun t (turns S B I d ts t)
  up-IsUpRun ts t going =
      let (n, uses, h) =
        turns-Follows S B I d d (OfUp.Ends S B I d) (OfUp.mine S B I d) (OfUp.up_rounds S B I d)
          (OfUp.up_run S B I d) (OfUp.up_run-IsRun S B I d) (OfUp.up-IsPump S B I d) ts t going in
      record {
        n = n;
        uses = uses;
        answers = ap (λ x. x.0) h;
        reads = ap (λ x. x.1.0) h;
        writes = ap (λ x. x.1.1) h;
      }

  pub down-IsDownRun :
      (ts : List Turn) (t : Joint S B I) → t.down ≡ running → IsDownRun t (turns S B I d ts t)
  down-IsDownRun ts t going =
      let (n, uses, h) =
        turns-Follows S B I d (flip d) (OfDown.Ends S B I d) (OfDown.mine S B I d)
          (OfDown.down_rounds S B I d) (OfDown.down_run S B I d) (OfDown.down_run-IsRun S B I d)
          (OfDown.down-IsPump S B I d) ts t going in
      record {
        n = n;
        uses = uses;
        answers = ap (λ x. x.0) h;
        reads = ap (λ x. x.1.0) h;
        writes = ap (λ x. x.1.1) h;
      }
