-- ===== src/Net/Session/Wire.antt =====
-- One frame over a connection that does not fail.
use ort.Prelude.{ℕ, ◌≡◌, ◌≤◌, List, ◌++◌, ok, length}
use ort.Proto.Frame.{max_frame, encode_framed}
use ort.Proto.Messages.Frames.{Frame, IsFrame, encode}
use ort.Proto.Messages.RoundTrip.{decode-encode}
use ort.Net.Stream.{Stream, IsReliable}
use ort.Net.Transport.Frames.{read_frame-encode_framed, write_frame-sent}
use ort.Net.Session.{Socket, send, receive}

-- A frame that the peer accepts: its fields are of their types and it is within the cap.
abbrev pub IsSendable : Frame → Type 0
IsSendable frame = IsFrame frame × (length (encode frame) ≤ max_frame)

-- The bytes of a frame on the wire.
abbrev pub on_wire : Frame → List ℕ
on_wire frame = encode_framed (encode frame)

module _ (I : Stream) (c : IsReliable I) where
  pub send-sent :
      (frame : Frame) (s : Socket I)
      → (w : I.Writer) × (send I frame s ≡ (ok tt, record s { writer = w }))
        × (c.sent w ≡ c.sent s.writer ++ on_wire frame)
  unfolding send
  send-sent frame s =
      let (w, e, sent) = write_frame-sent I c s.writer (encode frame) in (w, rw e, sent)

  pub receive-on_wire :
      (frame : Frame) (s : Socket I) (rest : List ℕ)
      → IsSendable frame
      → c.pending s.reader ≡ on_wire frame ++ rest
      → (r : I.Reader) × (receive I s ≡ (ok frame, record s { reader = r })) × (c.pending r ≡ rest)
  unfolding receive
  receive-on_wire frame s rest h e =
      let (r, got, left) = read_frame-encode_framed I c s.reader (encode frame) rest h.1 e in
      (r, rw (got, decode-encode frame h.0), left)
