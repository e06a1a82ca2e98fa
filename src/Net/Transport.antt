-- ===== src/Net/Transport.antt =====
-- crates/ort-net/src/transport.rs: frames over a byte stream. `FramedReader` and `FramedWriter` hold
-- nothing but a half of the stream, and are that half.
pub mod Frames
pub mod Failing
use ort.Prelude.{ℕ, List, Option, none, some, Result, ok, err, map_err}
use ort.Proto.Frame.{encode_framed, parse_len}
use ort.Net.Error.{IoError, IoResult, unexpected_eof, invalid_frame, invalid_record, other}
use ort.Net.Io.{Io, ◌>>=◌, ◌>>◌, lift}
use ort.Net.Stream.{Stream}

module _ (I : Stream) where
  -- The body, after its prefix was read.
  unfoldable pub read_body : List ℕ → Io IoError I.Reader (Option (List ℕ))
  read_body len_buf = do
    n ← lift (map_err invalid_frame (parse_len len_buf))
    body ← I.read_exact n
    lift (ok (some body))

  -- The `match` on what reading the prefix gave.
  prefix_read : IoResult (List ℕ) → Io IoError I.Reader (Option (List ℕ))
  prefix_read (ok len_buf) = read_body len_buf
  prefix_read (err unexpected_eof) = lift (ok none)
  prefix_read (err (invalid_frame e)) = lift (err (invalid_frame e))
  prefix_read (err (invalid_record e)) = lift (err (invalid_record e))
  prefix_read (err (other e)) = lift (err (other e))

  unfoldable pub read_frame : Io IoError I.Reader (Option (List ℕ))
  unfolding prefix_read
  read_frame r = let (len_buf, r') = I.read_exact 4 r in prefix_read len_buf r'

  unfoldable pub write_frame : List ℕ → Io IoError I.Writer (Unit {0})
  write_frame body = do I.write_all (encode_framed body); I.flush

  unfoldable pub shutdown : Io IoError I.Writer (Unit {0})
  shutdown = I.shutdown
