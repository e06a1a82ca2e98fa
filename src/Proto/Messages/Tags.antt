-- ===== src/Proto/Messages/Tags.antt =====
-- `FrameType` of crates/ort-proto/src/messages.rs.
use ort.Prelude.{ℕ, ok, err, ◌==◌, if◌then◌else◌}
use ort.Proto.Error.{ProtoResult, unknown_frame_type}

pub data FrameType : Type 0 where
  client_hello_one_rtt client_hello_zero_rtt client_data server_hello : FrameType
  server_ack data_record close : FrameType

-- `FrameType::X as u8`
unfoldable pub tag : FrameType → ℕ
tag client_hello_one_rtt = 0x01
tag client_hello_zero_rtt = 0x02
tag client_data = 0x03
tag server_hello = 0x04
tag server_ack = 0x05
tag data_record = 0x06
tag close = 0x07

unfoldable pub from_u8 : ℕ → ProtoResult FrameType
from_u8 v =
    if v == 0x01
    then ok client_hello_one_rtt
    else if v == 0x02
    then ok client_hello_zero_rtt
    else if v == 0x03
    then ok client_data
    else if v == 0x04
    then ok server_hello
    else if v == 0x05
    then ok server_ack
    else if v == 0x06
    then ok data_record
    else if v == 0x07
    then ok close
    else err (unknown_frame_type v)
