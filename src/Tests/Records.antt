-- ===== src/Tests/Records.antt =====
-- The record layer of the toy suite.
use ort.Prelude.{
  ℕ, ◌≡◌, refl, List, [], ◌∷◌, ok, err, be_bytes, bytes_eq, arith, replicate, length,
  length-replicate,
}
use ort.Core.Error.{aead_failure}
use ort.Core.Suite.Cipher.{CipherSuite}
use ort.Core.ConnMeta.{ConnMeta, client_binding_msg}
use ort.Core.ConnMeta.Binding.{client_binding_msg_injective}
use ort.Core.Pool
use ort.Core.Pool.{client_to_server, server_to_client, flip, Direction, next_nonce_dir, dir_pool}
use ort.Core.Record
use ort.Core.Record.{RecordLayer, record_aad, seal, open_record}
use ort.Core.Record.Peers.{InStep, open-seal}
use ort.Core.Record.Tunnel.{Event, send, deliver, start, run, sends, delivers}
use ort.Core.Record.Tunnel.Fifo.{IsFifo, run-IsFifo}
use ort.Tests.Toy.{toy, toy_blake3, toy-IsCorrect}

abbrev layer : RecordLayer toy toy_blake3
layer = Record.new toy toy_blake3 (record { enc_key = 1 ∷ []; pool_key = 2 ∷ [] }) (3 ∷ [])

abbrev traffic : List Event
traffic =
    send client_to_server (10 ∷ [])
    ∷ send server_to_client (20 ∷ 21 ∷ [])
    ∷ send client_to_server (11 ∷ [])
    ∷ deliver client_to_server
    ∷ deliver server_to_client
    ∷ deliver server_to_client
    ∷ []

unfoldable records : ℕ → ℕ
unfolding be_bytes bytes_eq Pool.dir_byte Pool.label Pool.new Pool.next_nonce Pool.absorb
    Pool.counter Record.new record_aad seal open_record sends delivers run
records n = n

delivered :
    (run toy toy_blake3 (start toy toy_blake3 layer layer) traffic).c2s.delivered ≡ (10 ∷ []) ∷ []
unfolding records
delivered = refl

in_step : (d : Direction) → InStep toy toy_blake3 d layer layer
in_step d = record { key = refl; pool = refl }

run-IsFifo_example :
    IsFifo (run toy toy_blake3 (start toy toy_blake3 layer layer) traffic).c2s
    × IsFifo (run toy toy_blake3 (start toy toy_blake3 layer layer) traffic).s2c
run-IsFifo_example =
    run-IsFifo toy toy_blake3 toy-IsCorrect layer layer traffic (in_step client_to_server)
      (in_step server_to_client)

open-seal_example :
    ((open_record toy toy_blake3 client_to_server
        (seal toy toy_blake3 client_to_server (10 ∷ []) layer).0
        layer).0
      ≡ ok (10 ∷ []))
    × InStep toy toy_blake3 client_to_server
        (seal toy toy_blake3 client_to_server (10 ∷ []) layer).1
        (open_record toy toy_blake3 client_to_server
          (seal toy toy_blake3 client_to_server (10 ∷ []) layer).0
          layer).1
open-seal_example =
    open-seal toy toy_blake3 toy-IsCorrect client_to_server (10 ∷ []) layer layer
      (in_step client_to_server)

forged : (open_record toy toy_blake3 server_to_client (9 ∷ []) layer).0 ≡ err aead_failure
unfolding records
forged = refl

-- A hash of 32 bytes.
abbrev hashing : CipherSuite
hashing = record toy { hash256 = λ m. replicate 32 (length m) }

abbrev meta : ConnMeta
meta = record { src_ip = replicate 16 1; ts_millis = 5; nonce = replicate 32 2 }

same_msg :
    client_binding_msg hashing meta (1 ∷ 2 ∷ []) (3 ∷ []) (5 ∷ [])
    ≡ client_binding_msg hashing meta (1 ∷ 2 ∷ []) (4 ∷ []) (6 ∷ [])
unfolding client_binding_msg
same_msg = refl

client_binding_msg_injective_example :
    (meta ≡ meta)
    × (◌≡◌ {A = List ℕ} (1 ∷ 2 ∷ []) (1 ∷ 2 ∷ []))
    × (hashing.hash256 (3 ∷ []) ≡ hashing.hash256 (4 ∷ []))
    × (hashing.hash256 (5 ∷ []) ≡ hashing.hash256 (6 ∷ []))
client_binding_msg_injective_example =
    client_binding_msg_injective hashing (λ m. length-replicate 32 (length m)) meta meta
      (1 ∷ 2 ∷ []) (1 ∷ 2 ∷ []) (3 ∷ []) (4 ∷ []) (5 ∷ []) (6 ∷ []) (omega arith) (omega arith)
      same_msg
