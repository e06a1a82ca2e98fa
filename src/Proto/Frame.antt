-- ===== src/Proto/Frame.antt =====
-- crates/ort-proto/src/frame.rs: the length prefix of a frame body.
use ort.Prelude.{
  ℕ, ◌%◌, ◌^◌, ◌≤◌, ◌≡◌, List, ◌++◌, ok, err, ltb, if◌then◌else◌, length, be_bytes, be_value,
  be_value-be_bytes, arith,
}
use ort.Proto.Error.{ProtoResult, frame_too_large}

-- 1 MiB
abbrev pub max_frame : ℕ
max_frame = 2 ^ 20

-- `body.len() as u32` keeps the low 32 bits.
unfoldable pub encode_framed : List ℕ → List ℕ
encode_framed body = be_bytes 4 (length body % 2 ^ 32) ++ body

unfoldable pub parse_len : List ℕ → ProtoResult ℕ
parse_len prefix =
    let n = be_value prefix in if ltb max_frame n then err (frame_too_large n) else ok n

-- The prefix that a body of `n` bytes gets.
abbrev pub prefix_of : List ℕ → List ℕ
prefix_of body = be_bytes 4 (length body % 2 ^ 32)

-- A body within the cap has its length parsed back from its prefix.
pub parse_len-prefix :
    (body : List ℕ) → length body ≤ max_frame → parse_len (prefix_of body) ≡ ok (length body)
unfolding parse_len
parse_len-prefix body h =
    rw (be_value-be_bytes 4 (length body % 2 ^ 32) (omega arith)) (ground arith)
