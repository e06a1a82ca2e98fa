-- ===== src/Tests/Wire.antt =====
-- The wire format: frames, cut frames, frames with bytes behind them.
use ort.Prelude.{ℕ, ◌≡◌, refl, List, [], ◌∷◌, ◌++◌, ok, err, be_bytes, be_value, arith}
use ort.Proto.Error.{truncated, trailing_bytes, unknown_frame_type}
use ort.Proto.Codec.Writer
use ort.Proto.Codec.Reader
use ort.Proto.Messages.Tags.{tag, from_u8}
use ort.Proto.Messages.Frames.{Frame, data_record, encode, decode, read_frame, read_fields, IsFrame}
use ort.Proto.Messages.RoundTrip.{decode-encode, decode-encode_prefix}
use ort.Proto.Messages.Canonical.{encode-decode}

abbrev data_frame : Frame
data_frame = data_record 1 (9 ∷ 8 ∷ 7 ∷ [])

abbrev data_bytes : List ℕ
data_bytes = 6 ∷ 1 ∷ 0 ∷ 0 ∷ 0 ∷ 3 ∷ 9 ∷ 8 ∷ 7 ∷ []

unfoldable codec : List ℕ → List ℕ
unfolding be_bytes be_value Writer.u8 Writer.u16 Writer.u64 Writer.raw Writer.bytes16 Writer.bytes32
    tag encode decode read_frame read_fields from_u8 Reader.◌>>=◌ Reader.pure Reader.lift Reader.u8
    Reader.u16 Reader.u64 Reader.array Reader.bytes16 Reader.bytes32 Reader.new Reader.expect_end
codec bs = bs

encode_data : encode data_frame ≡ data_bytes
unfolding codec
encode_data = refl

decode_data : decode data_bytes ≡ ok data_frame
unfolding codec
decode_data = refl

decode_empty : decode [] ≡ err truncated
unfolding codec
decode_empty = refl

decode_unknown : decode (0xff ∷ []) ≡ err (unknown_frame_type 0xff)
unfolding codec
decode_unknown = refl

decode-encode_example : decode (encode data_frame) ≡ ok data_frame
decode-encode_example = decode-encode data_frame (omega arith)

decode_trailing : decode (data_bytes ++ (5 ∷ 6 ∷ [])) ≡ err (trailing_bytes 2)
unfolding codec
decode_trailing = refl

decode-encode_prefix_example : decode (6 ∷ 1 ∷ 0 ∷ 0 ∷ 0 ∷ 3 ∷ 9 ∷ []) ≡ err truncated
decode-encode_prefix_example =
    decode-encode_prefix data_frame (6 ∷ 1 ∷ 0 ∷ 0 ∷ 0 ∷ 3 ∷ 9 ∷ []) 8 (7 ∷ []) (omega arith)
      encode_data

encode-decode_example : (encode data_frame ≡ data_bytes) × IsFrame data_frame
encode-decode_example = encode-decode data_bytes data_frame (omega arith) decode_data
