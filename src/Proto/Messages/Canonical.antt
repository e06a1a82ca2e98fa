-- ===== src/Proto/Messages/Canonical.antt =====
-- Each frame has one encoding: bytes that `decode` accepts are the bytes that `encode` writes.
use ort.Prelude.{
  ℕ, ◌≡◌, refl, sym, ap, ◌∙◌, List, [], ◌++◌, append-nil, ok, and_then, ◌==◌, length, arith,
  IsBytes, and_then-eq-ok, eq-nil_of_length, Bool-cases, ==_iff, inl, inr,
}
use mathlib.Core.Path.{subst}
use ort.Proto.Codec.Reader.{Reader, expect_end, new}
use ort.Proto.Codec.Inverse.{
  Inverse, Inverse-bind, Inverse-map, pure-Inverse, lift-Inverse, u8-Inverse, u16-Inverse,
  u64-Inverse, Inverse-weaken, array-Inverse, bytes16-Inverse, bytes32-Inverse,
}
use ort.Proto.Codec.Parses.{unread, expect_end-unread}
use ort.Proto.Messages.Tags.{FrameType, tag, from_u8}
use ort.Proto.Messages.Payload.{IsPayload, read}
use ort.Proto.Messages.Frames.{Frame, close, encode, decode, read_fields, read_frame, IsFrame}
use ort.Proto.Messages.Layout.{payload_layout, type_of, fields_layout, layout, encode-layout}

read-Inverse : Inverse read (λ p bs. (bs ≡ payload_layout p) × IsPayload p)
unfolding read
read-Inverse = Inverse-bind _ _ bytes16-Inverse λ ct b1 (e1, ct_fits, ct_bytes).
    Inverse-bind _ _ (array-Inverse 16) λ ip b2 (e2, ip_long, ip_bytes).
      Inverse-bind _ _ u64-Inverse λ ts b3 (ts_word, e3, _).
        Inverse-bind _ _ (array-Inverse 32) λ nonce b4 (e4, nonce_long, nonce_bytes).
          Inverse-bind _ _ bytes16-Inverse λ sig b5 (e5, sig_fits, sig_bytes).
            Inverse-map _ _ bytes32-Inverse λ enc b6 (e6, enc_fits, enc_bytes). (
              rw (e1, e2, e3, e4, e5, e6) refl,
              record {
                ciphertext_fits = ct_fits;
                ciphertext_bytes = ct_bytes;
                src_ip_long = rw e2 ip_long;
                src_ip_bytes = rw e2 ip_bytes;
                ts_word = ts_word;
                nonce_long = rw e4 nonce_long;
                nonce_bytes = rw e4 nonce_bytes;
                sig_fits = sig_fits;
                sig_bytes = sig_bytes;
                enc_data_fits = enc_fits;
                enc_data_bytes = enc_bytes;
              },
            )

-- The bytes of the fields of a frame of type `t`.
abbrev FieldsOf : FrameType → Frame → List ℕ → Type 0
FieldsOf t f bs = (bs ≡ fields_layout f) × (t ≡ type_of f) × IsFrame f

fields-Inverse : (t : FrameType) → Inverse (read_fields t) (FieldsOf t)
unfolding read_fields
fields-Inverse FrameType.client_hello_one_rtt = Inverse-bind _ _ u16-Inverse λ s b1 (hs, e1, _).
    Inverse-map _ _ bytes16-Inverse λ pk b2 (e2, hk, hkb). (rw (e1, e2) refl, refl, (hs, hk, hkb))
fields-Inverse FrameType.client_hello_zero_rtt = Inverse-bind _ _ u16-Inverse λ s b1 (hs, e1, _).
    Inverse-bind _ _ bytes16-Inverse λ pk b2 (e2, hk, hkb).
      Inverse-map _ _ read-Inverse λ p b3 (e3, hp). (rw (e1, e2, e3) refl, refl, (hs, hk, hkb, hp))
fields-Inverse FrameType.client_data = Inverse-bind _ _ bytes16-Inverse λ pk b2 (e2, hk, hkb).
    Inverse-map _ _ read-Inverse λ p b3 (e3, hp). (rw (e2, e3) refl, refl, (hk, hkb, hp))
fields-Inverse FrameType.server_hello = Inverse-bind _ _ u16-Inverse λ s b1 (hs, e1, _).
    Inverse-bind _ _ bytes16-Inverse λ pk b2 (e2, hk, hkb).
      Inverse-bind _ _ bytes32-Inverse λ cert b3 (e3, hc, hcb).
        Inverse-map _ _ u64-Inverse
          λ ts b4 (ht, e4, _). (rw (e1, e2, e3, e4) refl, refl, (hs, hk, hkb, hc, hcb, ht))
fields-Inverse FrameType.server_ack =
    Inverse-map _ _ bytes16-Inverse λ h b1 (e1, hh, hhb). (e1, refl, (hh, hhb))
fields-Inverse FrameType.data_record = Inverse-bind _ _ u8-Inverse λ d b1 (hd, e1).
    Inverse-map _ _ bytes32-Inverse λ c b2 (e2, hc, hcb). (rw (e1, e2) refl, refl, (hd, hc, hcb))
fields-Inverse FrameType.close = pure-Inverse _ close (refl, refl, tt)

tag-from_u8 : (v : ℕ) (t : FrameType) → from_u8 v ≡ ok t → v ≡ tag t
unfolding from_u8 tag
tag-from_u8 v t e = ground arith

IsFrame-Inverse : Inverse read_frame (λ f bs. (bs ≡ layout f) × IsFrame f)
unfolding read_frame
IsFrame-Inverse = Inverse-bind _ _ u8-Inverse λ v b1 (hv, e1).
    Inverse-bind _ _
      (lift-Inverse (from_u8 v) (λ t bs. (bs ≡ []) × (v ≡ tag t))
        (λ t e. (refl, tag-from_u8 v t e)))
      λ t b2 (e2, et).
        Inverse-weaken _ (fields-Inverse t)
          λ f ys (e3, same, hf). (rw (e1, e2, e3, et, same) refl, hf)

finish :
    (f' f : Frame) (r : Reader)
    → and_then (expect_end r) (λ _. ok f') ≡ ok f
    → (f' ≡ f) × (unread r ≡ [])
finish f' f r e =
    let e' = rw expect_end-unread at e in
    elim (Bool-cases (length (unread r) == 0)) [
      | inl done ↦
          let e1 : ok f' ≡ ok f = rw done at e' in
          (cc e1, eq-nil_of_length (unread r) ((==_iff _ 0).0 done))
      | inr more ↦ let e1 = rw more at e' in absurd (cc e1)
    ]

-- Bytes that decode to a frame are that frame's encoding, and the frame's fields are in range: no
-- frame has a second encoding.
pub encode-decode :
    (buf : List ℕ) (f : Frame) → IsBytes buf → decode buf ≡ ok f → (encode f ≡ buf) × IsFrame f
unfolding decode new
encode-decode buf f hb e =
    let ((f', r), rf, e1) = and_then-eq-ok (read_frame (new buf)) _ e in
    let (bs, ub, (eb, hf)) = IsFrame-Inverse.at (new buf) hb rf in
    let (same, nothing) = finish f' f r e1 in
    (
      encode-layout f
          ∙ ap layout (sym same)
          ∙ sym eb
          ∙ sym (append-nil bs)
          ∙ ap (λ t. bs ++ t) (sym nothing)
          ∙ sym ub,
      subst IsFrame same hf,
    )
