-- ===== src/Tests/Handshakes.antt =====
-- Handshakes of the toy suite: 0-RTT, 1-RTT, refusals, and the two fates of a replay.
use ort.Prelude.{
  ℕ, ◌+◌, ◌≤◌, ◌≡◌, ◌≢◌, refl, replicate, List, [], ◌∷◌, ok, err, be_bytes, bytes_eq, arith, IsU64,
}
use ort.Core.Error.{source_ip_mismatch, stale_timestamp, bad_signature}
use ort.Core.Suite.Ids.{v1_ml_kem768_ml_dsa65, code, from_code}
use ort.Core.Time.{check_window}
use ort.Core.Kdf.{derive_session_keys}
use ort.Core.ConnMeta.{canonical, client_binding_msg, sign_client_binding, verify_client_binding}
use ort.Core.Replay
use ort.Core.Replay.{StrikeCache, check_and_insert, replay_tag}
use ort.Core.Pool
use ort.Core.Pool.{client_to_server, server_to_client}
use ort.Core.Record
use ort.Core.Record.{RecordLayer}
use ort.Core.Record.Tunnel.{Event, send, deliver, start, run}
use ort.Core.Record.Tunnel.Fifo.{IsFifo}
use ort.Core.Handshake.Client.{
  ClientConfig, ClientEstablished, built, build_payload, client_zero_rtt, client_one_rtt_finish,
  client_one_rtt_hello,
}
use ort.Core.Handshake.Server.{
  ServerConfig, ServerEstablished, zero_rtt, one_rtt, check_ip, check_suite, establish,
  process_payload, server_on_first, server_on_client_data, server_hello,
}
use ort.Core.Handshake.Agreement.{zero_rtt_session, one_rtt_agreement}
use ort.Core.Handshake.Honest.{Agrees, IsHonest, IsFresh}
use ort.Core.Handshake.Checks.{IsAccepted, process_payload-IsAccepted}
use ort.Core.Handshake.Decision.{Decision, process_payload_decides}
use ort.Core.Handshake.ReplayWindow.{after_all, replay_rejected, replay_accepted}
use ort.Proto.Messages.Payload.{KemPayload}
use ort.Proto.Messages.Frames.{Frame, client_hello_zero_rtt, client_data, server_ack}
use ort.Tests.Toy.{toy, toy_blake3, toy-IsCorrect}

abbrev pub ccfg : ClientConfig toy
ccfg = record { sig_secret = 1 ∷ 2 ∷ []; client_pk = 1 ∷ 2 ∷ [] }

abbrev pub scfg : ServerConfig toy
scfg = record {
  kem_secret = 3 ∷ 4 ∷ [];
  server_pk = 3 ∷ 4 ∷ [];
  certificate = [];
  window_ms = 2000;
  skew_ms = 1000;
}

abbrev pub ip : List ℕ
ip = replicate 16 7

abbrev pub nonce : List ℕ
nonce = replicate 32 50

abbrev pub hello : List ℕ
hello = 104 ∷ 105 ∷ []

-- What the client builds when its clock shows `ts`.
abbrev pub made : ℕ → KemPayload × ClientEstablished toy toy_blake3
made ts = built toy toy_blake3 ccfg ip ts nonce hello (7 ∷ 8 ∷ []) (7 ∷ 8 ∷ [])

abbrev pub frame0 : ℕ → Frame
frame0 ts = client_hello_zero_rtt 1 (1 ∷ 2 ∷ []) (made ts).0

abbrev pub empty : StrikeCache
empty = record { window_ms = 2000; entries = []; last_evict = 0 }

unfoldable pub protocol : ℕ → ℕ
unfolding be_bytes bytes_eq code from_code check_window derive_session_keys canonical
    client_binding_msg sign_client_binding verify_client_binding replay_tag check_and_insert
    Replay.contains_key Replay.retain Replay.insert Pool.dir_byte Pool.label Pool.new
    Pool.next_nonce Pool.absorb Pool.counter Record.new Record.record_aad Record.seal
    Record.open_record Record.enc_key_hash built build_payload client_zero_rtt client_one_rtt_finish
    client_one_rtt_hello check_ip check_suite establish process_payload server_on_first
    server_on_client_data server_hello
protocol n = n

abbrev established : ℕ → ServerEstablished toy toy_blake3
established ts = record { record_layer = (made ts).1.record_layer; early_data = hello }

accepts :
    (process_payload toy toy_blake3 scfg (1 ∷ 2 ∷ []) (made 5000).0 ip 4500 empty).0
    ≡ ok (established 5000)
unfolding protocol
accepts = refl

accepts_late :
    (process_payload toy toy_blake3 scfg (1 ∷ 2 ∷ []) (made 5000).0 ip 5500 empty).0
    ≡ ok (established 5000)
unfolding protocol
accepts_late = refl

refuses_address :
    (process_payload toy toy_blake3 scfg (1 ∷ 2 ∷ []) (made 5000).0 (10 ∷ []) 5500 empty).0
    ≡ err source_ip_mismatch
unfolding protocol
refuses_address = refl

refuses_key :
    (process_payload toy toy_blake3 scfg (1 ∷ 3 ∷ []) (made 5000).0 ip 5500 empty).0
    ≡ err bad_signature
unfolding protocol
refuses_key = refl

refuses_time :
    (process_payload toy toy_blake3 scfg (1 ∷ 2 ∷ []) (made 5000).0 ip 7001 empty).0
    ≡ err stale_timestamp
unfolding protocol
refuses_time = refl

pub builds0 :
    client_zero_rtt toy toy_blake3 ccfg (3 ∷ 4 ∷ []) ip 5000 (7 ∷ 8 ∷ []) nonce hello
    ≡ ok (frame0 5000, (made 5000).1)
unfolding protocol
builds0 = refl

pub fresh0 : IsFresh toy (frame0 5000) 5500 empty
unfolding protocol
fresh0 = refl

pub honest : IsHonest toy toy_blake3 ccfg scfg 5000 5500
honest = record {
  client_key = refl;
  server_key = refl;
  ts_word = omega arith;
  not_ahead = omega arith;
  not_behind = omega arith;
}

abbrev traffic : List Event
traffic =
    send client_to_server hello ∷ send server_to_client (1 ∷ []) ∷ deliver client_to_server ∷ []

zero_rtt_session_example :
    (server : ServerEstablished toy toy_blake3) × ((server_on_first toy toy_blake3 scfg
        (frame0 5000)
        ip
        5500
        empty).0
      ≡ ok (zero_rtt (server_ack (made 5000).1.expected_ek_hash) server))
    × (server.early_data ≡ hello)
    × IsFifo
        (run toy toy_blake3
          (start toy toy_blake3 (made 5000).1.record_layer server.record_layer)
          traffic).c2s
    × IsFifo
        (run toy toy_blake3
          (start toy toy_blake3 (made 5000).1.record_layer server.record_layer)
          traffic).s2c
zero_rtt_session_example =
    zero_rtt_session toy toy_blake3 toy-IsCorrect ccfg scfg 5000 5500 honest ip (7 ∷ 8 ∷ []) nonce
      hello empty (frame0 5000) (made 5000).1 traffic builds0 fresh0

process_payload-IsAccepted_example :
    IsAccepted toy toy_blake3 scfg (1 ∷ 2 ∷ []) (made 5000).0 ip 5500 empty (established 5000)
process_payload-IsAccepted_example =
    process_payload-IsAccepted toy toy_blake3 scfg (1 ∷ 2 ∷ []) (made 5000).0 ip 5500 empty
      (established 5000) accepts_late

ts_word : IsU64 (made 5000).0.ts_millis
unfolding built
ts_word = omega arith

past : (made 5000).0.ts_millis ≤ 5500
unfolding built
past = omega arith

early : 6600 ≤ (made 5000).0.ts_millis + 2000
unfolding built
early = omega arith

-- Accepted at 5500, not ahead of the clock: refused at 6000, after another request in between.
replay_rejected_example :
    (process_payload toy toy_blake3 scfg (1 ∷ 2 ∷ []) (made 5000).0 ip 6000 (
      after_all toy toy_blake3 scfg
        (record { client_pk = 1 ∷ 2 ∷ []; payload = (made 5100).0; peer_ip = ip; now = 5800 } ∷ [])
        (process_payload toy toy_blake3 scfg (1 ∷ 2 ∷ []) (made 5000).0 ip 5500 empty).1)).0
    ≢ ok (established 5000)
replay_rejected_example =
    replay_rejected toy toy_blake3 scfg (1 ∷ 2 ∷ []) (made 5000).0 ts_word empty refl ip 5500
      (established 5000) accepts_late past
      (record { client_pk = 1 ∷ 2 ∷ []; payload = (made 5100).0; peer_ip = ip; now = 5800 } ∷ [])
      (1 ∷ 2 ∷ []) ip 6000 (established 5000) (omega arith)

-- Accepted at 4500, 500 ms ahead of the clock: accepted again at 6600.
replay_accepted_example :
    (process_payload toy toy_blake3 scfg
      (1 ∷ 2 ∷ [])
      (made 5000).0
      ip
      6600
      (process_payload toy toy_blake3 scfg (1 ∷ 2 ∷ []) (made 5000).0 ip 4500 empty).1).0
    ≡ ok (established 5000)
replay_accepted_example =
    replay_accepted toy toy_blake3 scfg (1 ∷ 2 ∷ []) (made 5000).0 ts_word empty refl ip 4500
      (established 5000) accepts 6600 (omega arith) early

pub builds1 :
    client_one_rtt_finish toy toy_blake3 ccfg (3 ∷ 4 ∷ []) ip 5000 (7 ∷ 8 ∷ []) nonce hello
    ≡ ok (client_data (1 ∷ 2 ∷ []) (made 5000).0, (made 5000).1)
unfolding protocol
builds1 = refl

pub fresh1 : IsFresh toy (client_data (1 ∷ 2 ∷ []) (made 5000).0) 5500 empty
unfolding protocol
fresh1 = refl

one_rtt_agreement_example :
    (server_on_first toy toy_blake3 scfg (client_one_rtt_hello toy ccfg) ip 5500 empty ≡ (
      ok (one_rtt (Frame.server_hello (code v1_ml_kem768_ml_dsa65) (3 ∷ 4 ∷ []) [] 5500)),
      empty,
    ))
    × (server : ServerEstablished toy toy_blake3) × ((server_on_client_data toy toy_blake3 scfg
          (client_data (1 ∷ 2 ∷ []) (made 5000).0)
          ip
          5500
          empty).0
        ≡ ok server)
    × Agrees toy toy_blake3 hello (made 5000).1 server
one_rtt_agreement_example =
    one_rtt_agreement toy toy_blake3 toy-IsCorrect ccfg scfg 5000 5500 honest ip (7 ∷ 8 ∷ []) nonce
      hello empty (client_data (1 ∷ 2 ∷ []) (made 5000).0) (made 5000).1 builds1 fresh1

-- A payload with another client's key.
process_payload_decides_example :
    Decision toy toy_blake3 scfg
      (9 ∷ [])
      (made 5000).0
      ip
      5500
      empty
      (process_payload toy toy_blake3 scfg (9 ∷ []) (made 5000).0 ip 5500 empty)
unfolding built
process_payload_decides_example =
    process_payload_decides toy toy_blake3 scfg (9 ∷ []) (made 5000).0 ip 5500 empty (omega arith)
