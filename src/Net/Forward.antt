-- ===== src/Net/Forward.antt =====
-- crates/ort-net/src/forward.rs: the two pumps of an established connection. Each runs beside the
-- other and shares the record layer under a lock: `others n` is what the other pump has done to the
-- layer since the last time, when `n` rounds are left. A pump's fuel bounds its rounds; it answers
-- `none` when the fuel is spent. Turns has both at once.
pub mod Frames
pub mod Chunks
pub mod Pumps
pub mod Arrivals
pub mod Through
pub mod Steady
pub mod Cut
pub mod Shared
pub mod Halves
pub mod Joined
pub mod Turns
pub mod Whole
pub mod Failing
use Prim.Native.String.{String}
use ort.Prelude.{
  ℕ, zero, suc, ◌*◌, List, [], ◌∷◌, Bool, true, false, Option, none, some, Result, ok, err, map_err,
  and_then, if◌then◌else◌, bytes_eq,
}
use ort.Core.Suite.Cipher.{CipherSuite, Blake3}
use ort.Core.Error
use ort.Core.Pool.{Direction, dir_byte}
use ort.Core.Record.{RecordLayer, seal, open_record}
use ort.Proto.Messages.Frames.{
  Frame, client_hello_one_rtt, client_hello_zero_rtt, client_data, server_hello, server_ack,
  data_record, close, encode, decode,
}
use ort.Net.Error.{
  IoError, OrtError, OrtResult, io, proto, unexpected, key_confirmation, invalid_record,
}
use ort.Net.Io.{Io, ◌>>=◌, ◌>>◌, lift}
use ort.Net.Stream.{Stream}
use ort.Net.Transport.{read_frame, write_frame, shutdown}

abbrev pub chunk_len : ℕ
chunk_len = 16 * 1024

abbrev pub invalid : Error.Error → OrtError
invalid e = io (invalid_record e)

module _ (S : CipherSuite) (B : Blake3) (I : Stream) where
  -- What the pump from the plain connection to the tunnel holds.
  pub record Up : Type 0 where
    pub plain : I.Reader
    pub writer : I.Writer
    pub layer : RecordLayer S B

  -- What the pump from the tunnel to the plain connection holds.
  pub record Down : Type 0 where
    pub reader : I.Reader
    pub plain : I.Writer
    pub layer : RecordLayer S B

  -- Before the pumps start.
  unfoldable pub flush_early : List ℕ → Io IoError I.Writer (Unit {0})
  flush_early [] = lift (ok tt)
  flush_early (b ∷ bs) = I.write_all (b ∷ bs)

  -- One iteration has ended the loop, or the loop goes on with `next`.
  abbrev pub Loop : Type 0 → Type 0
  Loop W = Io OrtError W (Option (Unit {0}))

  module _ (send_dir : Direction) where
    unfoldable pub read_plain : Io OrtError Up (List ℕ)
    read_plain u =
        let (got, plain) = I.read chunk_len u.plain in (map_err io got, record u { plain = plain })

    unfoldable pub seal_chunk : (RecordLayer S B → RecordLayer S B) → List ℕ → Io OrtError Up Frame
    seal_chunk other chunk u =
        let (ct, layer) = seal S B send_dir chunk (other u.layer) in
        (ok (data_record (dir_byte send_dir) ct), record u { layer = layer })

    unfoldable pub write_up : Frame → Io OrtError Up (Unit {0})
    write_up frame u =
        let (done, writer) = write_frame I (encode frame) u.writer in
        (map_err io done, record u { writer = writer })

    -- After the loop; both results are discarded.
    unfoldable pub finish_up : Loop Up
    finish_up u =
        let (_, writer) = write_frame I (encode close) u.writer in
        let (_, writer') = shutdown I writer in (ok (some tt), record u { writer = writer' })

    -- What was read: nothing, or a chunk.
    up_chunk : (RecordLayer S B → RecordLayer S B) → Loop Up → List ℕ → Loop Up
    up_chunk other next [] = finish_up
    up_chunk other next (b ∷ bs) = do frame ← seal_chunk other (b ∷ bs); write_up frame; next

    unfoldable pub up : (ℕ → RecordLayer S B → RecordLayer S B) → ℕ → Loop Up
    unfolding up_chunk
    up others zero = lift (ok none)
    up others (suc n) = do chunk ← read_plain; up_chunk (others n) (up others n) chunk

  unfoldable pub read_tunnel : Io OrtError Down (Option Frame)
  read_tunnel s =
      let (got, reader) = read_frame I s.reader in
      let decoded = and_then (map_err io got) λ body. elim body [
        | none ↦ ok none
        | some b ↦ and_then (map_err proto (decode b)) λ frame. ok (some frame)
      ] in
      (decoded, record s { reader = reader })

  unfoldable pub write_plain : List ℕ → Io OrtError Down (Unit {0})
  write_plain pt s =
      let (done, plain) = I.write_all pt s.plain in (map_err io done, record s { plain = plain })

  -- The result is discarded.
  unfoldable pub finish_down : Loop Down
  finish_down s = let (_, plain) = I.shutdown s.plain in (ok (some tt), record s { plain = plain })

  module _ (recv_dir : Direction) where
    unfoldable pub open_chunk :
        (RecordLayer S B → RecordLayer S B) → List ℕ → Io OrtError Down (List ℕ)
    open_chunk other ct s =
        let (pt, layer) = open_record S B recv_dir ct (other s.layer) in
        (map_err invalid pt, record s { layer = layer })

    down_frame : (RecordLayer S B → RecordLayer S B) → Loop Down → Option Frame → Loop Down
    down_frame other next none = finish_down
    down_frame other next (some (data_record dir ct)) = do
      pt ← open_chunk other ct
      write_plain pt
      next
    down_frame other next (some close) = finish_down
    down_frame other next (some _) = lift (err (unexpected "expected DataRecord"))

    unfoldable pub down_loop : (ℕ → RecordLayer S B → RecordLayer S B) → ℕ → Loop Down
    unfolding down_frame
    down_loop others zero = lift (ok none)
    down_loop others (suc n) = do
      frame ← read_tunnel
      down_frame (others n) (down_loop others n) frame

    -- The first frame, where an acknowledgement is awaited.
    check_ack : List ℕ → Loop Down → Option Frame → Loop Down
    check_ack expected next none = lift (ok (some tt))
    check_ack expected next (some (server_ack ek_hash)) =
        if bytes_eq ek_hash expected then next else lift (err key_confirmation)
    check_ack expected next (some _) = lift (err (unexpected "expected ServerAck"))

    unfoldable pub down : Option (List ℕ) → (ℕ → RecordLayer S B → RecordLayer S B) → ℕ → Loop Down
    unfolding check_ack
    down none others n = down_loop others n
    down (some expected) others n = do
      frame ← read_tunnel
      check_ack expected (down_loop others n) frame
