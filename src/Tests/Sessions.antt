-- ===== src/Tests/Sessions.antt =====
-- The connection of the toy suite over the toy stream: handshakes, trust, frames.
use ort.Prelude.{
  ℕ, ◌≡◌, ◌↔◌, refl, sym, ap, List, [], ◌∷◌, false, none, some, ok, arith, be_value, ltb→le,
}
use ort.Core.Handshake.Client.{client_one_rtt_hello}
use ort.Core.Handshake.Server
use ort.Proto.Frame.{encode_framed, parse_len}
use ort.Proto.Codec.Writer
use ort.Proto.Messages.Tags.{tag}
use ort.Proto.Messages.Payload
use ort.Proto.Messages.Payload.{KemPayload, IsPayload}
use ort.Proto.Messages.Frames.{Frame, client_data, server_ack, encode}
use ort.Net.Transport
use ort.Net.Transport.Frames.{
  outcome, read_frame-outcome, write_frames, write_frames-Delivers, Delivers,
}
use ort.Net.Cert
use ort.Net.Cert.{strict, trust_on_first_use, verify}
use ort.Net.Cert.Policy.{IsBound, verify_iff}
use ort.Net.Session
use ort.Net.Session.{
  Socket, ClientOutcome, ServerOutcome, client_open, server_accept, connected, client,
}
use ort.Net.Session.Trust.{IsTrusted, client_open-IsTrusted}
use ort.Net.Session.Wire.{IsSendable, on_wire}
use ort.Net.Session.Handshakes.{Joins, client_open-server_accept}
use ort.Tests.Toy.{toy, toy_blake3, toy-IsCorrect, toy_stream, toy-IsReliable, toy_x509}
use ort.Tests.Handshakes.{
  ccfg, scfg, ip, nonce, hello, made, frame0, empty, honest, builds0, fresh0, protocol,
}

unfoldable pub net : ℕ → ℕ
unfolding protocol Writer.u8 Writer.u16 Writer.u64 Writer.raw Writer.bytes16 Writer.bytes32
    Payload.write tag encode encode_framed parse_len be_value Transport.read_frame
    Transport.read_body Transport.write_frame Session.send Session.open_zero_rtt client_open
    Cert.verify Cert.verify_strict Cert.verify_issuer Cert.extract_bound_server_pk Cert.str_eq
net n = n

-- A refused length, from four of six bytes.
read_frame-outcome_example :
    (Transport.read_frame toy_stream (1 ∷ 0 ∷ 0 ∷ 0 ∷ 7 ∷ 8 ∷ [])).0
    ≡ outcome (1 ∷ 0 ∷ 0 ∷ 0 ∷ 7 ∷ 8 ∷ [])
read_frame-outcome_example =
    read_frame-outcome toy_stream toy-IsReliable (1 ∷ 0 ∷ 0 ∷ 0 ∷ 7 ∷ 8 ∷ [])

-- Two bytes of a prefix count as the end of the stream.
reads_half_prefix : (Transport.read_frame toy_stream (0 ∷ 0 ∷ [])).0 ≡ ok none
unfolding net
reads_half_prefix = refl

abbrev bodies : List (List ℕ)
bodies = (9 ∷ 8 ∷ []) ∷ [] ∷ (7 ∷ []) ∷ []

write_frames-Delivers_example :
    ((write_frames toy_stream toy-IsReliable bodies []).0 ≡ ok tt)
    × Delivers toy_stream toy-IsReliable (write_frames toy_stream toy-IsReliable bodies []).1 bodies
write_frames-Delivers_example =
    write_frames-Delivers toy_stream toy-IsReliable []
      (write_frames toy_stream toy-IsReliable bodies []).1 bodies (omega arith) refl refl

verify_iff_example :
    (verify toy_x509 (strict (some (5 ∷ []))) 0 (3 ∷ 4 ∷ []) (1 ∷ 3 ∷ 4 ∷ []) ≡ ok tt)
    ↔ IsBound toy_x509 (some (5 ∷ [])) 0 (3 ∷ 4 ∷ []) (1 ∷ 3 ∷ 4 ∷ [])
verify_iff_example = verify_iff toy_x509 (some (5 ∷ [])) 0 (3 ∷ 4 ∷ []) (1 ∷ 3 ∷ 4 ∷ [])

accepts_binding : verify toy_x509 (strict none) 0 (3 ∷ 4 ∷ []) (1 ∷ 3 ∷ 4 ∷ []) ≡ ok tt
unfolding net
accepts_binding = refl

abbrev pub fresh : Socket toy_stream
fresh = record { reader = []; writer = [] }

abbrev opened : ClientOutcome toy toy_blake3 toy_stream
opened = record {
  conn =
      connected toy toy_blake3 toy_stream (made 5000).1.record_layer client
        (record { reader = []; writer = on_wire (frame0 5000) });
  expect_ack = some (made 5000).1.expected_ek_hash;
  server_pk = 3 ∷ 4 ∷ [];
}

opens :
    client_open toy toy_blake3 toy_stream toy_x509 ccfg ip
      (strict none)
      0
      5000
      (7 ∷ 8 ∷ [])
      nonce
      hello
      (some (3 ∷ 4 ∷ []))
      false
      fresh
    ≡ (ok opened, record { reader = []; writer = on_wire (frame0 5000) })
unfolding net
opens = refl

client_open-IsTrusted_example :
    IsTrusted toy toy_blake3 toy_stream toy_x509 ccfg ip
      (strict none)
      0
      5000
      (7 ∷ 8 ∷ [])
      nonce
      hello
      (some (3 ∷ 4 ∷ []))
      (3 ∷ 4 ∷ [])
client_open-IsTrusted_example =
    client_open-IsTrusted toy toy_blake3 toy_stream toy_x509 ccfg ip (strict none) 0 5000
      (7 ∷ 8 ∷ []) nonce hello (some (3 ∷ 4 ∷ [])) false fresh
      (record { reader = []; writer = on_wire (frame0 5000) }) opened opens

made-IsPayload : IsPayload (made 5000).0
unfolding protocol
made-IsPayload = record {
  ciphertext_fits = omega arith;
  ciphertext_bytes = omega arith;
  src_ip_long = refl;
  src_ip_bytes = omega arith;
  ts_word = omega arith;
  nonce_long = refl;
  nonce_bytes = omega arith;
  sig_fits = omega arith;
  sig_bytes = omega arith;
  enc_data_fits = omega arith;
  enc_data_bytes = omega arith;
}

pub frame-IsSendable : IsSendable (frame0 5000)
unfolding net
frame-IsSendable = ((omega arith, omega arith, omega arith, made-IsPayload), ltb→le _ _ refl)

wired0 :
    on_wire (frame0 5000)
    ≡ (client_open toy toy_blake3 toy_stream toy_x509 ccfg ip
        (strict none)
        0
        5000
        (7 ∷ 8 ∷ [])
        nonce
        hello
        (some (3 ∷ 4 ∷ []))
        false
        fresh).1.writer
wired0 = sym (ap (λ x. x.1.writer) opens)

client_open-server_accept_example :
    (client : ClientOutcome toy toy_blake3 toy_stream) × (server : ServerOutcome toy toy_blake3
      toy_stream)
    × (ack : List ℕ) × ((client_open toy toy_blake3 toy_stream toy_x509 ccfg ip
          (strict none)
          0
          5000
          (7 ∷ 8 ∷ [])
          nonce
          hello
          (some (3 ∷ 4 ∷ []))
          false
          fresh).0
        ≡ ok client)
    × ((server_accept toy toy_blake3 toy_stream scfg ip 5500 5500
          (λ s. s)
          (record { reader = on_wire (frame0 5000); writer = [] }, empty)).0
        ≡ ok server)
    × Joins toy toy_blake3 toy_stream hello client server
    × (client.expect_ack ≡ some ack)
    × (server.conn.writer ≡ on_wire (server_ack ack))
client_open-server_accept_example =
    client_open-server_accept toy toy_blake3 toy_stream toy_x509 toy-IsCorrect toy-IsReliable ccfg
      scfg 5000 5500 honest ip (7 ∷ 8 ∷ []) nonce hello (strict none) 0 empty (λ s. s) fresh
      (record { reader = on_wire (frame0 5000); writer = [] }) (frame0 5000) (made 5000).1 builds0
      frame-IsSendable fresh0 refl wired0

-- First contact: the server's certificate is not looked at, and the cache is as it was.
abbrev pub data_frame : Frame
data_frame = client_data (1 ∷ 2 ∷ []) (made 5000).0

abbrev pub contacted : Socket toy_stream
contacted = record { reader = on_wire (Server.server_hello toy scfg 5400); writer = [] }

abbrev first_socket : Socket toy_stream
first_socket =
    (client_open toy toy_blake3 toy_stream toy_x509 ccfg ip trust_on_first_use 0 5000 (7 ∷ 8 ∷ [])
      nonce hello none false contacted).1

abbrev contacting : Socket toy_stream
contacting = record { reader = first_socket.writer; writer = [] }

pub data-IsSendable : IsSendable data_frame
unfolding net
data-IsSendable = ((omega arith, omega arith, made-IsPayload), ltb→le _ _ refl)

pub hello-IsSendable : IsSendable (client_one_rtt_hello toy ccfg)
unfolding net
hello-IsSendable = (omega arith, ltb→le _ _ refl)

pub answer-IsSendable : IsSendable (Server.server_hello toy scfg 5400)
unfolding net
answer-IsSendable = (omega arith, ltb→le _ _ refl)

pub trusts : verify toy_x509 trust_on_first_use 0 (3 ∷ 4 ∷ []) [] ≡ ok tt
unfolding net
trusts = refl
