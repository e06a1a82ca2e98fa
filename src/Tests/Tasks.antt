-- ===== src/Tests/Tasks.antt =====
-- The tasks of a client of the toy suite, which share the pin.
use ort.Prelude.{◌++◌, All, ℕ, ◌≡◌, refl, List, [], ◌∷◌, false, none, some, ok}
use ort.Core.Handshake.Client.{ClientEstablished, client_one_rtt_hello, built}
use ort.Proto.Codec.Reader
use ort.Proto.Messages.Frames
use ort.Proto.Messages.Tags.{from_u8}
use ort.Proto.Messages.Payload.{KemPayload}
use ort.Proto.Messages.Frames.{Frame, client_data, client_hello_zero_rtt, server_ack, encode}
use ort.Net.Cert.{trust_on_first_use}
use ort.Net.Session
use ort.Net.Session.{
  Socket, ClientOutcome, ServerOutcome, client_open, server_accept, connected, client,
}
use ort.Net.Run
use ort.Net.Run.{Tasks, idle, Ends, Steps, begin, succeed, here, then}
use ort.Net.Run.Pins.{IsVerified, opened-IsVerified, opened-pinned}
use ort.Net.Session.Wire.{on_wire}
use ort.Tests.Toy.{toy, toy_blake3, toy_stream, toy_x509}
use ort.Tests.Handshakes.{ccfg, ip, nonce}
use ort.Tests.Sessions.{net, fresh, contacted}

unfoldable pub decoding : ℕ → ℕ
unfolding Frames.decode Frames.read_frame Frames.read_fields from_u8 Reader.◌>>=◌ Reader.pure
    Reader.lift Reader.u8 Reader.u16 Reader.u64 Reader.bytes16 Reader.bytes32 Reader.new
    Reader.expect_end Session.receive Session.hello_fields Session.check_pin Session.open_one_rtt
decoding n = n

-- A client that pins the key of its first connection.
abbrev made_quiet : KemPayload × ClientEstablished toy toy_blake3
made_quiet = built toy toy_blake3 ccfg ip 5000 nonce [] (7 ∷ 8 ∷ []) (7 ∷ 8 ∷ [])

abbrev quiet_wire : List ℕ
quiet_wire =
    on_wire (client_one_rtt_hello toy ccfg) ++ on_wire (client_data (1 ∷ 2 ∷ []) made_quiet.0)

abbrev quiet : ClientOutcome toy toy_blake3 toy_stream
quiet = record {
  conn =
      connected toy toy_blake3 toy_stream made_quiet.1.record_layer client
        (record { reader = []; writer = quiet_wire });
  expect_ack = none;
  server_pk = 3 ∷ 4 ∷ [];
}

quiet_opens :
    client_open toy toy_blake3 toy_stream toy_x509 ccfg ip trust_on_first_use 0 5000
      (7 ∷ 8 ∷ [])
      nonce
      []
      none
      false
      contacted
    ≡ (ok quiet, record { reader = []; writer = quiet_wire })
unfolding net decoding
quiet_opens = refl

quiet-Ends : Ends toy toy_blake3 toy_stream toy_x509 ccfg trust_on_first_use false none quiet
quiet-Ends = record {
  src_ip = ip;
  cert_now = 0;
  now = 5000;
  r = 7 ∷ 8 ∷ [];
  nonce = nonce;
  before = contacted;
  after = record { reader = []; writer = quiet_wire };
  ends = quiet_opens;
}

abbrev one_waits : Tasks
one_waits = record { pin = none; waiting = none ∷ []; opened = [] }

abbrev two_wait : Tasks
two_wait = record { pin = none; waiting = none ∷ none ∷ []; opened = [] }

abbrev one_opened : Tasks
one_opened = record { pin = some (3 ∷ 4 ∷ []); waiting = none ∷ []; opened = (3 ∷ 4 ∷ []) ∷ [] }

steps : Steps toy toy_blake3 toy_stream toy_x509 ccfg trust_on_first_use false idle one_opened
unfolding Run.remember
steps =
    then idle two_wait one_opened
      (then idle one_waits two_wait (then idle idle one_waits (here idle) (begin idle))
        (begin one_waits))
      (succeed two_wait (none ∷ []) [] none quiet refl quiet-Ends)

opened-IsVerified_example :
    All
      (IsVerified toy toy_blake3 toy_stream toy_x509 ccfg trust_on_first_use false)
      ((3 ∷ 4 ∷ []) ∷ [])
opened-IsVerified_example =
    opened-IsVerified toy toy_blake3 toy_stream toy_x509 ccfg trust_on_first_use false one_opened
      steps

abbrev pinned : Tasks
pinned = record { pin = some (3 ∷ 4 ∷ []); waiting = []; opened = (9 ∷ []) ∷ [] }

abbrev pinned_later : Tasks
pinned_later = record {
  pin = some (3 ∷ 4 ∷ []);
  waiting = [];
  opened = (3 ∷ 4 ∷ []) ∷ (9 ∷ []) ∷ [];
}

abbrev quick_wire : List ℕ
quick_wire = on_wire (client_hello_zero_rtt 1 (1 ∷ 2 ∷ []) made_quiet.0)

abbrev quick : ClientOutcome toy toy_blake3 toy_stream
quick = record {
  conn =
      connected toy toy_blake3 toy_stream made_quiet.1.record_layer client
        (record { reader = []; writer = quick_wire });
  expect_ack = some made_quiet.1.expected_ek_hash;
  server_pk = 3 ∷ 4 ∷ [];
}

quick_opens :
    client_open toy toy_blake3 toy_stream toy_x509 ccfg ip trust_on_first_use 0 5000
      (7 ∷ 8 ∷ [])
      nonce
      []
      (some (3 ∷ 4 ∷ []))
      false
      fresh
    ≡ (ok quick, record { reader = []; writer = quick_wire })
unfolding net
quick_opens = refl

quick-Ends :
    Ends toy toy_blake3 toy_stream toy_x509 ccfg trust_on_first_use false (some (3 ∷ 4 ∷ [])) quick
quick-Ends = record {
  src_ip = ip;
  cert_now = 0;
  now = 5000;
  r = 7 ∷ 8 ∷ [];
  nonce = nonce;
  before = fresh;
  after = record { reader = []; writer = quick_wire };
  ends = quick_opens;
}

abbrev pinned_waits : Tasks
pinned_waits = record {
  pin = some (3 ∷ 4 ∷ []);
  waiting = some (3 ∷ 4 ∷ []) ∷ [];
  opened = (9 ∷ []) ∷ [];
}

later : Steps toy toy_blake3 toy_stream toy_x509 ccfg trust_on_first_use false pinned pinned_later
unfolding Run.remember
later =
    then pinned pinned_waits pinned_later
      (then pinned pinned pinned_waits (here pinned) (begin pinned))
      (succeed pinned_waits [] [] (some (3 ∷ 4 ∷ [])) quick refl quick-Ends)

opened-pinned_example :
    (pinned_later.pin ≡ some (3 ∷ 4 ∷ []))
    × (new : List (List ℕ)) × (pinned_later.opened ≡ new ++ ((9 ∷ []) ∷ []))
    × All (λ k. k ≡ 3 ∷ 4 ∷ []) new
opened-pinned_example =
    opened-pinned toy toy_blake3 toy_stream toy_x509 ccfg trust_on_first_use false (3 ∷ 4 ∷ [])
      pinned pinned_later refl refl later
