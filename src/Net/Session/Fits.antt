-- ===== src/Net/Session/Fits.antt =====
-- What an honest client sends with the suite V1 is within the limits of the wire format.
use ort.Prelude.{
  ℕ, ◌+◌, ◌-◌, ◌≡◌, ◌≤◌, List, ok, length, length-append, length-be_bytes, IsBytes, IsU64, IsU16,
  arith,
}
use ort.Core.Suite.Ids.{code}
use ort.Core.Suite.Cipher.{Blake3}
use ort.Core.Suite.V1.{Crates, v1, sig_public, sig_sign, kem_public}
use ort.Core.Suite.V1.Documented.{IsDocumented}
use ort.Core.Suite.V1.Correct.{kem_encapsulate-kem_public, v1-IsCompact}
use ort.Core.ConnMeta.{sign_client_binding}
use ort.Core.Record.{seal}
use ort.Core.Handshake.Client.{
  ClientConfig, ClientEstablished, built, build_payload, client_zero_rtt, client_one_rtt_hello,
  client_one_rtt_finish,
}
use ort.Proto.Frame.{max_frame}
use ort.Proto.Messages.Payload.{KemPayload, IsPayload}
use ort.Proto.Messages.Frames.{
  Frame, client_hello_zero_rtt, client_data, client_hello_one_rtt, encode,
}
use ort.Proto.Messages.Layout.{encode-layout, payload_layout, length-field16, length-field32}
use ort.Net.Session.Wire.{IsSendable}

length-payload_layout :
    (p : KemPayload)
    → length (payload_layout p)
      ≡ length p.ciphertext
        + length p.src_ip
        + length p.nonce
        + length p.client_sig
        + length p.enc_data
        + 16
length-payload_layout p =
    omega (arith, length-append {0}, length-field16, length-field32, length-be_bytes 8 p.ts_millis)

-- What the Rust types of the client's source address, clock and nonce say.
pub record IsTyped (src_ip : List ℕ) (ts : ℕ) (nonce : List ℕ) : Type 0 where
  pub src_ip_long : length src_ip ≡ 16
  pub src_ip_bytes : IsBytes src_ip
  pub ts_word : IsU64 ts
  pub nonce_long : length nonce ≡ 32
  pub nonce_bytes : IsBytes nonce

-- The longest early data for which the frame is within the cap.
abbrev pub early_limit : ℕ
early_limit = max_frame - 6434

module _ (K : Crates) (d : IsDocumented K) (B : Blake3) (ccfg : ClientConfig (v1 K))
    (secret : K.kem.DecapsulationKey) (ts : ℕ) (src_ip r nonce early_data : List ℕ) where
  -- What the client builds for the key of `secret`.
  abbrev pub made : KemPayload × ClientEstablished (v1 K) B
  made =
      let (ct, shared) = K.kem.encapsulate_deterministic (K.kem.encapsulation_key secret) r in
      built (v1 K) B ccfg src_ip ts nonce early_data ct shared

  abbrev pub zero_rtt_frame : Frame
  zero_rtt_frame = client_hello_zero_rtt (code (v1 K).id) ccfg.client_pk made.0

  abbrev pub data_frame : Frame
  data_frame = client_data ccfg.client_pk made.0

  build_payload-made :
      build_payload (v1 K) B ccfg (kem_public K secret) src_ip ts r nonce early_data ≡ ok made
  unfolding build_payload
  build_payload-made = rw (kem_encapsulate-kem_public K d secret r)

  module _ (key : ccfg.client_pk ≡ sig_public K ccfg.sig_secret) (typed : IsTyped src_ip ts nonce)
      (bytes : IsBytes early_data) (short : length early_data ≤ early_limit) where
    made-IsPayload : IsPayload made.0
    unfolding built sign_client_binding sig_sign seal
    made-IsPayload =
        let ek = K.kem.encapsulation_key secret in
        record {
          ciphertext_fits = omega (arith, d.ml_kem.ct_length ek r);
          ciphertext_bytes = d.ml_kem.ct_bytes ek r;
          src_ip_long = typed.src_ip_long;
          src_ip_bytes = typed.src_ip_bytes;
          ts_word = typed.ts_word;
          nonce_long = typed.nonce_long;
          nonce_bytes = typed.nonce_bytes;
          sig_fits = omega (arith, d.ml_dsa.sig_length _);
          sig_bytes = d.ml_dsa.sig_bytes _;
          enc_data_fits = omega (arith, (v1-IsCompact K d).sealed_length _ _ _ early_data);
          enc_data_bytes = (v1-IsCompact K d).sealed_bytes _ _ _ early_data bytes;
        }

    made-lengths :
        (length made.0.ciphertext ≡ 1088)
        × (length made.0.src_ip ≡ 16)
        × (length made.0.nonce ≡ 32)
        × (length made.0.client_sig ≡ 3309)
        × (length made.0.enc_data ≤ length early_data + 16)
    unfolding built sign_client_binding sig_sign seal
    made-lengths = (
      d.ml_kem.ct_length _ r,
      typed.src_ip_long,
      typed.nonce_long,
      d.ml_dsa.sig_length _,
      (v1-IsCompact K d).sealed_length _ _ _ early_data,
    )

    client_pk-length : length ccfg.client_pk ≡ 1952
    unfolding sig_public
    client_pk-length = rw key (d.ml_dsa.vk_length _)

    client_pk-IsBytes : IsBytes ccfg.client_pk
    unfolding sig_public
    client_pk-IsBytes = rw key (d.ml_dsa.vk_bytes _)

    suite-IsU16 : IsU16 (code (v1 K).id)
    unfolding code
    suite-IsU16 = omega arith

    frame-length : length (encode zero_rtt_frame) ≤ 6434 + length early_data
    frame-length = rw (encode-layout zero_rtt_frame) (
        omega (
          arith,
          length-append {0},
          length-field16,
          length-be_bytes 2 (code (v1 K).id),
          length-payload_layout made.0,
          made-lengths,
          client_pk-length,
        ))

    data-length : length (encode data_frame) ≤ 6432 + length early_data
    data-length = rw (encode-layout data_frame) (
        omega (
          arith,
          length-append {0},
          length-field16,
          length-payload_layout made.0,
          made-lengths,
          client_pk-length,
        ))

    hello-IsSendable : IsSendable (client_one_rtt_hello (v1 K) ccfg)
    unfolding client_one_rtt_hello
    hello-IsSendable =
        let frame = client_hello_one_rtt (code (v1 K).id) ccfg.client_pk in
        (
          (suite-IsU16, omega (arith, client_pk-length), client_pk-IsBytes),
          rw (encode-layout frame) (
              omega (
                arith,
                length-append {0},
                length-field16,
                length-be_bytes 2 (code (v1 K).id),
                client_pk-length,
              )),
        )

    -- With the suite V1 on documented crates and for the key that a V1 server has of its secret, an
    -- honest client builds both frames that carry a payload, and these two and its bare hello are
    -- within the limits of the format, if the early data is at most 1042142 bytes. The frames of
    -- the pumps are not among them.
    pub client_frames-IsSendable :
        (client_zero_rtt (v1 K) B ccfg (kem_public K secret) src_ip ts r nonce early_data
          ≡ ok (zero_rtt_frame, made.1))
        × (client_one_rtt_finish (v1 K) B ccfg (kem_public K secret) src_ip ts r nonce early_data
            ≡ ok (data_frame, made.1))
        × IsSendable zero_rtt_frame
        × IsSendable data_frame
        × IsSendable (client_one_rtt_hello (v1 K) ccfg)
    unfolding client_zero_rtt client_one_rtt_finish
    client_frames-IsSendable = (
      rw build_payload-made,
      rw build_payload-made,
      (
        (suite-IsU16, omega (arith, client_pk-length), client_pk-IsBytes, made-IsPayload),
        omega (arith, frame-length),
      ),
      (
        (omega (arith, client_pk-length), client_pk-IsBytes, made-IsPayload),
        omega (arith, data-length),
      ),
      hello-IsSendable,
    )
