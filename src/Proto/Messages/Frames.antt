-- ===== src/Proto/Messages/Frames.antt =====
-- `Frame` of crates/ort-proto/src/messages.rs, `encode` and `decode`.
use ort.Prelude.{ℕ, List, IsByte, IsBytes, IsU16, IsU32, IsU64, length, and_then, ok}
use ort.Proto.Error.{ProtoResult}
use ort.Proto.Codec.Writer
use ort.Proto.Codec.Writer.{Writer, ◌▹◌}
use ort.Proto.Codec.Reader
use ort.Proto.Codec.Reader.{Parser, ◌>>=◌, pure, lift}
use ort.Proto.Messages.Tags.{FrameType, tag, from_u8}
use ort.Proto.Messages.Payload
use ort.Proto.Messages.Payload.{KemPayload, IsPayload}

pub data Frame : Type 0 where
  -- the suite and the client's verifying key
  client_hello_one_rtt : ℕ → List ℕ → Frame
  client_hello_zero_rtt : ℕ → List ℕ → KemPayload → Frame
  client_data : List ℕ → KemPayload → Frame
  -- the suite, the server's key, its certificate, its time
  server_hello : ℕ → List ℕ → List ℕ → ℕ → Frame
  server_ack : List ℕ → Frame
  -- the direction and the sealed record
  data_record : ℕ → List ℕ → Frame
  close : Frame

unfoldable pub write_frame : Frame → Writer → Writer
write_frame (client_hello_one_rtt suite_id client_pk) w =
    w
    ▹ Writer.u8 (tag FrameType.client_hello_one_rtt)
    ▹ Writer.u16 suite_id
    ▹ Writer.bytes16 client_pk
write_frame (client_hello_zero_rtt suite_id client_pk payload) w =
    w
    ▹ Writer.u8 (tag FrameType.client_hello_zero_rtt)
    ▹ Writer.u16 suite_id
    ▹ Writer.bytes16 client_pk
    ▹ Payload.write payload
write_frame (client_data client_pk payload) w =
    w ▹ Writer.u8 (tag FrameType.client_data) ▹ Writer.bytes16 client_pk ▹ Payload.write payload
write_frame (server_hello suite_id server_pk certificate server_ts) w =
    w
    ▹ Writer.u8 (tag FrameType.server_hello)
    ▹ Writer.u16 suite_id
    ▹ Writer.bytes16 server_pk
    ▹ Writer.bytes32 certificate
    ▹ Writer.u64 server_ts
write_frame (server_ack ek_hash) w =
    w ▹ Writer.u8 (tag FrameType.server_ack) ▹ Writer.bytes16 ek_hash
write_frame (data_record dir ciphertext) w =
    w ▹ Writer.u8 (tag FrameType.data_record) ▹ Writer.u8 dir ▹ Writer.bytes32 ciphertext
write_frame close w = w ▹ Writer.u8 (tag FrameType.close)

unfoldable pub encode : Frame → List ℕ
unfolding write_frame Writer.with_capacity Writer.into_bytes
encode f = Writer.into_bytes (write_frame f (Writer.with_capacity 64))

-- The arms of the `match ty` of `decode`.
unfoldable pub read_fields : FrameType → Parser Frame
read_fields FrameType.client_hello_one_rtt = do
  suite_id ← Reader.u16
  client_pk ← Reader.bytes16
  pure (client_hello_one_rtt suite_id client_pk)
read_fields FrameType.client_hello_zero_rtt = do
  suite_id ← Reader.u16
  client_pk ← Reader.bytes16
  payload ← Payload.read
  pure (client_hello_zero_rtt suite_id client_pk payload)
read_fields FrameType.client_data = do
  client_pk ← Reader.bytes16
  payload ← Payload.read
  pure (client_data client_pk payload)
read_fields FrameType.server_hello = do
  suite_id ← Reader.u16
  server_pk ← Reader.bytes16
  certificate ← Reader.bytes32
  server_ts ← Reader.u64
  pure (server_hello suite_id server_pk certificate server_ts)
read_fields FrameType.server_ack = do ek_hash ← Reader.bytes16; pure (server_ack ek_hash)
read_fields FrameType.data_record = do
  dir ← Reader.u8
  ciphertext ← Reader.bytes32
  pure (data_record dir ciphertext)
read_fields FrameType.close = pure close

-- `decode` up to `expect_end`.
unfoldable pub read_frame : Parser Frame
read_frame = do v ← Reader.u8; ty ← lift (from_u8 v); read_fields ty

unfoldable pub decode : List ℕ → ProtoResult Frame
decode buf =
    and_then (read_frame (Reader.new buf))
      λ (frame, r). and_then (Reader.expect_end r) λ _. ok frame

-- A frame whose fields are of their Rust types and fit their length prefixes.
abbrev pub IsFrame : Frame → Type 0
IsFrame (client_hello_one_rtt suite_id client_pk) =
    IsU16 suite_id × IsU16 (length client_pk) × IsBytes client_pk
IsFrame (client_hello_zero_rtt suite_id client_pk payload) =
    IsU16 suite_id × IsU16 (length client_pk) × IsBytes client_pk × IsPayload payload
IsFrame (client_data client_pk payload) =
    IsU16 (length client_pk) × IsBytes client_pk × IsPayload payload
IsFrame (server_hello suite_id server_pk certificate server_ts) =
    IsU16 suite_id
    × IsU16 (length server_pk)
    × IsBytes server_pk
    × IsU32 (length certificate)
    × IsBytes certificate
    × IsU64 server_ts
IsFrame (server_ack ek_hash) = IsU16 (length ek_hash) × IsBytes ek_hash
IsFrame (data_record dir ciphertext) = IsByte dir × IsU32 (length ciphertext) × IsBytes ciphertext
IsFrame close = Unit
