-- ===== src/Net/Stream.antt =====
-- The two halves of a socket as the crate `tokio` gives them: the operations that crates/ort-net
-- calls, what their documentation says of a connection that does not fail, and of any.
use ort.Prelude.{ℕ, ◌≡◌, ◌<◌, ◌≤◌, List, [], ◌++◌, length, ok, err}
use ort.Net.Error.{IoError, unexpected_eof}
use ort.Net.Io.{Io}

pub record Stream : Type 1 where
  pub Reader : Type 0
  pub Writer : Type 0
  -- `read` into a buffer of this many bytes: the bytes that were read
  pub read : ℕ → Io IoError Reader (List ℕ)
  -- `read_exact` into a buffer of this many bytes
  pub read_exact : ℕ → Io IoError Reader (List ℕ)
  pub write_all : List ℕ → Io IoError Writer (Unit {0})
  pub flush : Io IoError Writer (Unit {0})
  pub shutdown : Io IoError Writer (Unit {0})

-- `pending` are the bytes that are still to be read before the end of the stream, `sent` those that
-- were written. `read` returns the next bytes, none only at
-- the end of the stream; `read_exact` takes what it asks for where that much is to come, and says
-- `UnexpectedEof` where it is not; a write appends, and the rest adds nothing.
pub record IsReliable (I : Stream) : Type 0 where
  pub pending : I.Reader → List ℕ
  pub sent : I.Writer → List ℕ
  pub reads :
      (r : I.Reader) (n : ℕ)
      → 0 < n
      → (chunk : List ℕ) × (r' : I.Reader) × (I.read n r ≡ (ok chunk, r'))
        × (pending r ≡ chunk ++ pending r')
        × (length chunk ≤ n)
        × (chunk ≡ [] → pending r ≡ [])
  pub read_whole :
      (r : I.Reader) (n : ℕ) (bs rest : List ℕ)
      → length bs ≡ n
      → pending r ≡ bs ++ rest
      → (r' : I.Reader) × (I.read_exact n r ≡ (ok bs, r')) × (pending r' ≡ rest)
  pub read_short :
      (r : I.Reader) (n : ℕ) → length (pending r) < n → (I.read_exact n r).0 ≡ err unexpected_eof
  pub writes :
      (w : I.Writer) (bs : List ℕ)
      → (w' : I.Writer) × (I.write_all bs w ≡ (ok tt, w')) × (sent w' ≡ sent w ++ bs)
  pub flushes : (w : I.Writer) → (w' : I.Writer) × (I.flush w ≡ (ok tt, w')) × (sent w' ≡ sent w)
  pub shuts : (w : I.Writer) → (w' : I.Writer) × (I.shutdown w ≡ (ok tt, w')) × (sent w' ≡ sent w)

-- A connection that may fail at any operation. `pending` are the bytes that are still to be read,
-- `sent` those that were written. What is read are the next bytes in their order; what is written is
-- appended, in full by a write that succeeds, and as far as it got by one that fails.
pub record IsOrdered (I : Stream) : Type 0 where
  pub pending : I.Reader → List ℕ
  pub sent : I.Writer → List ℕ
  pub reads :
      (r : I.Reader) (n : ℕ)
      → (taken : List ℕ) × (pending r ≡ taken ++ pending (I.read n r).1)
        × ((chunk : List ℕ) → (I.read n r).0 ≡ ok chunk → (chunk ≡ taken) × (length chunk ≤ n))
  pub reads_exact :
      (r : I.Reader) (n : ℕ)
      → (taken : List ℕ) × (pending r ≡ taken ++ pending (I.read_exact n r).1)
        × ((bs : List ℕ) → (I.read_exact n r).0 ≡ ok bs → (bs ≡ taken) × (length bs ≡ n))
  pub writes :
      (w : I.Writer) (bs : List ℕ)
      → (part : List ℕ) × (left : List ℕ) × (bs ≡ part ++ left)
        × (sent (I.write_all bs w).1 ≡ sent w ++ part)
        × ((I.write_all bs w).0 ≡ ok tt → left ≡ [])
  pub flushes : (w : I.Writer) → sent (I.flush w).1 ≡ sent w
  pub shuts : (w : I.Writer) → sent (I.shutdown w).1 ≡ sent w

-- A connection that does not fail is also one that may, with the same bytes to come.
pub record IsSteady (I : Stream) : Type 0 where
  pub reliable : IsReliable I
  pub ordered : IsOrdered I
  pub same_pending : (r : I.Reader) → ordered.pending r ≡ reliable.pending r
