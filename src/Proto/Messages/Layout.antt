-- ===== src/Proto/Messages/Layout.antt =====
-- The wire format as a table: what `encode` writes, field by field. Children of `Messages` reason
-- about this description; the writer appears in the first two lemmas only.
use ort.Prelude.{
  ℕ, ◌+◌, ◌%◌, ◌^◌, ◌≡◌, refl, List, [], ◌∷◌, ◌++◌, append_assoc, length, length-append,
  length-be_bytes, be_bytes, arith,
}
use ort.Proto.Codec.Writer
use ort.Proto.Codec.Writer.{Writer, field16, field32, bytes16-field16, bytes32-field32}
use ort.Proto.Messages.Tags.{FrameType, tag}
use ort.Proto.Messages.Payload.{KemPayload, write}
use ort.Proto.Messages.Frames.{
  Frame, client_hello_one_rtt, client_hello_zero_rtt, client_data, server_hello, server_ack,
  data_record, close, encode,
}

abbrev pub payload_layout : KemPayload → List ℕ
payload_layout p =
    field16 p.ciphertext
    ++ (p.src_ip
        ++ (be_bytes 8 p.ts_millis ++ (p.nonce ++ (field16 p.client_sig ++ field32 p.enc_data))))

abbrev pub type_of : Frame → FrameType
type_of (client_hello_one_rtt _ _) = FrameType.client_hello_one_rtt
type_of (client_hello_zero_rtt _ _ _) = FrameType.client_hello_zero_rtt
type_of (client_data _ _) = FrameType.client_data
type_of (server_hello _ _ _ _) = FrameType.server_hello
type_of (server_ack _) = FrameType.server_ack
type_of (data_record _ _) = FrameType.data_record
type_of close = FrameType.close

abbrev pub fields_layout : Frame → List ℕ
fields_layout (client_hello_one_rtt suite_id client_pk) = be_bytes 2 suite_id ++ field16 client_pk
fields_layout (client_hello_zero_rtt suite_id client_pk payload) =
    be_bytes 2 suite_id ++ (field16 client_pk ++ payload_layout payload)
fields_layout (client_data client_pk payload) = field16 client_pk ++ payload_layout payload
fields_layout (server_hello suite_id server_pk certificate server_ts) =
    be_bytes 2 suite_id ++ (field16 server_pk ++ (field32 certificate ++ be_bytes 8 server_ts))
fields_layout (server_ack ek_hash) = field16 ek_hash
fields_layout (data_record dir ciphertext) = (dir ∷ []) ++ field32 ciphertext
fields_layout close = []

abbrev pub layout : Frame → List ℕ
layout f = (tag (type_of f) ∷ []) ++ fields_layout f

write-payload_layout : (p : KemPayload) (w : Writer) → (write p w).buf ≡ w.buf ++ payload_layout p
unfolding write Writer.raw Writer.u64
write-payload_layout p w = simp (bytes16-field16, bytes32-field32, append_assoc)

-- What `encode` writes is the table's row.
pub encode-layout : (f : Frame) → encode f ≡ layout f
unfolding encode Writer.u8 Writer.u16 Writer.u64
encode-layout (client_hello_one_rtt s pk) = simp (bytes16-field16, append_assoc)
encode-layout (client_hello_zero_rtt s pk p) =
    simp (write-payload_layout, bytes16-field16, append_assoc)
encode-layout (client_data pk p) = simp (write-payload_layout, bytes16-field16, append_assoc)
encode-layout (server_hello s pk cert ts) = simp (bytes16-field16, bytes32-field32, append_assoc)
encode-layout (server_ack h) = simp (bytes16-field16, append_assoc)
encode-layout (data_record d c) = simp (bytes32-field32, append_assoc)
encode-layout close = refl

pub length-field16 : (b : List ℕ) → length (field16 b) ≡ 2 + length b
unfolding field16
length-field16 b =
    omega (
      arith,
      length-append (be_bytes 2 (length b % 2 ^ 16)) b,
      length-be_bytes 2 (length b % 2 ^ 16),
    )

pub length-field32 : (b : List ℕ) → length (field32 b) ≡ 4 + length b
unfolding field32
length-field32 b =
    omega (
      arith,
      length-append (be_bytes 4 (length b % 2 ^ 32)) b,
      length-be_bytes 4 (length b % 2 ^ 32),
    )
