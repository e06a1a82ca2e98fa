-- ===== src/Proto/Messages/RoundTrip.antt =====
-- `decode` on what `encode` wrote, whole, cut short, or with bytes behind it.
use ort.Prelude.{
  ℕ, ◌≡◌, refl, ap, ◌∙◌, List, [], ◌∷◌, ◌++◌, append-nil, ok, err, ◌==◌, length, arith,
  if◌then◌else◌,
}
use ort.Proto.Error.{truncated, trailing_bytes}
use ort.Proto.Codec.Reader.{new}
use ort.Proto.Codec.Parses.{
  Parses, pure-Parses, lift-Parses, Parses-bind, Parses-map, u8-Parses, u16-Parses, u64-Parses,
  array-Parses, bytes16-Parses, bytes32-Parses, unread-advance, expect_end-unread,
}
use ort.Proto.Messages.Tags.{FrameType, tag, from_u8}
use ort.Proto.Messages.Payload.{KemPayload, IsPayload, read}
use ort.Proto.Messages.Frames.{
  Frame, client_hello_one_rtt, client_hello_zero_rtt, client_data, server_hello, server_ack,
  data_record, close, encode, decode, read_fields, read_frame, IsFrame,
}
use ort.Proto.Messages.Layout.{payload_layout, type_of, fields_layout, layout, encode-layout}

read-Parses : (p : KemPayload) → IsPayload p → Parses read (payload_layout p) p
unfolding read
read-Parses p h = Parses-bind _ (bytes16-Parses p.ciphertext h.ciphertext_fits) (
    Parses-bind _ (array-Parses p.src_ip 16 h.src_ip_long) (
      Parses-bind _ (u64-Parses p.ts_millis h.ts_word) (
        Parses-bind _ (array-Parses p.nonce 32 h.nonce_long) (
          Parses-bind _ (bytes16-Parses p.client_sig h.sig_fits)
            (Parses-map _ (bytes32-Parses p.enc_data h.enc_data_fits))))))

fields-Parses : (f : Frame) → IsFrame f → Parses (read_fields (type_of f)) (fields_layout f) f
unfolding read_fields
fields-Parses (client_hello_one_rtt s pk) (hs, hk, _) =
    Parses-bind _ (u16-Parses s hs) (Parses-map _ (bytes16-Parses pk hk))
fields-Parses (client_hello_zero_rtt s pk p) (hs, hk, _, hp) =
    Parses-bind _ (u16-Parses s hs)
      (Parses-bind _ (bytes16-Parses pk hk) (Parses-map _ (read-Parses p hp)))
fields-Parses (client_data pk p) (hk, _, hp) =
    Parses-bind _ (bytes16-Parses pk hk) (Parses-map _ (read-Parses p hp))
fields-Parses (server_hello s pk cert ts) (hs, hk, _, hc, _, ht) = Parses-bind _ (u16-Parses s hs) (
    Parses-bind _ (bytes16-Parses pk hk)
      (Parses-bind _ (bytes32-Parses cert hc) (Parses-map _ (u64-Parses ts ht))))
fields-Parses (server_ack h) (hh, _) = Parses-map _ (bytes16-Parses h hh)
fields-Parses (data_record d c) (hd, hc, _) =
    Parses-bind _ (u8-Parses d) (Parses-map _ (bytes32-Parses c hc))
fields-Parses close h = pure-Parses close

from_u8-tag : (t : FrameType) → from_u8 (tag t) ≡ ok t
unfolding from_u8 tag
from_u8-tag FrameType.client_hello_one_rtt = refl
from_u8-tag _ = refl

frame-Parses : (f : Frame) → IsFrame f → Parses read_frame (layout f) f
unfolding read_frame
frame-Parses f h = Parses-bind _ (u8-Parses (tag (type_of f))) (
    Parses-bind read_fields (lift-Parses (from_u8 (tag (type_of f))) (from_u8-tag (type_of f)))
      (fields-Parses f h))

-- The whole decoder on a frame's bytes and whatever follows them.
decode_frame :
    (f : Frame) (tail : List ℕ)
    → IsFrame f
    → decode (encode f ++ tail)
      ≡ (if length tail == 0 then ok f else err (trailing_bytes (length tail)))
unfolding decode new
decode_frame f tail h =
    let start : encode f ++ tail ≡ layout f ++ tail = ap (λ bs. bs ++ tail) (encode-layout f) in
    rw ((frame-Parses f h).reads (new (encode f ++ tail)) tail start) (
      rw expect_end-unread
        (rw (unread-advance (new (encode f ++ tail)) (layout f) tail start) ground arith))

-- Decoding an encoded frame returns the frame, if its fields are of their types and fit their
-- length prefixes.
pub decode-encode : (f : Frame) → IsFrame f → decode (encode f) ≡ ok f
decode-encode f h = rw append-nil at (decode_frame f [] h)

-- Bytes behind an encoded frame whose fields fit are refused, with their number.
decode-encode_trailing :
    (f : Frame) (c : ℕ) (tail : List ℕ)
    → IsFrame f
    → decode (encode f ++ (c ∷ tail)) ≡ err (trailing_bytes (length (c ∷ tail)))
decode-encode_trailing f c tail h = decode_frame f (c ∷ tail) h ∙ ground arith

-- Every proper prefix of an encoded frame whose fields fit is refused as truncated.
pub decode-encode_prefix :
    (f : Frame) (front : List ℕ) (c : ℕ) (back : List ℕ)
    → IsFrame f
    → encode f ≡ front ++ (c ∷ back)
    → decode front ≡ err truncated
unfolding decode new
decode-encode_prefix f front c back h e =
    rw ((frame-Parses f h).cuts (new front) c back (rw encode-layout at e))
