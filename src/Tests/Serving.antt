-- ===== src/Tests/Serving.antt =====
-- A run of the toy suite's server: a session, a second one, and a replay that is refused.
use ort.Prelude.{ℕ, IsU64, replicate, ◌≡◌, refl, List, [], ◌∷◌, ok, err, arith}
use ort.Core.Error.{CoreResult, replayed}
use ort.Core.Replay
use ort.Core.Replay.{StrikeCache}
use ort.Core.Handshake.Server.{ServerStep, zero_rtt, server_on_first}
use ort.Proto.Messages.Frames.{server_ack, client_hello_zero_rtt}
use ort.Proto.Messages.Payload.{KemPayload}
use ort.Core.Handshake.Client.{ClientEstablished, built}
use ort.Net.Run.Served.{Serving, Acceptance, start, Steps, tick, established, refused, here, then}
use ort.Net.Run.Served.Once.{Once, served-Once}
use ort.Tests.Toy.{toy, toy_blake3}
use ort.Tests.Handshakes.{ccfg, scfg, ip, made, frame0, hello, protocol}

abbrev turn : ℕ → ℕ → StrikeCache → CoreResult (ServerStep toy toy_blake3) × StrikeCache
turn ts now s = server_on_first toy toy_blake3 scfg (frame0 ts) ip now s

-- Another session's payload.
abbrev other : KemPayload × ClientEstablished toy toy_blake3
other = built toy toy_blake3 ccfg ip 5100 (replicate 32 51) hello (7 ∷ 8 ∷ []) (7 ∷ 8 ∷ [])

abbrev turn_other : ℕ → StrikeCache → CoreResult (ServerStep toy toy_blake3) × StrikeCache
turn_other now s =
    server_on_first toy toy_blake3 scfg (client_hello_zero_rtt 1 (1 ∷ 2 ∷ []) other.0) ip now s

abbrev cache0 : StrikeCache
cache0 = Replay.new scfg.window_ms

abbrev cache1 : StrikeCache
cache1 = (turn 5000 5500 cache0).1

abbrev cache2 : StrikeCache
cache2 = (turn_other 5500 cache1).1

abbrev cache3 : StrikeCache
cache3 = (turn 5000 6000 cache2).1

abbrev step : KemPayload × ClientEstablished toy toy_blake3 → ServerStep toy toy_blake3
step (p, est) =
    zero_rtt (server_ack est.expected_ek_hash)
      (record { record_layer = est.record_layer; early_data = hello })

unfoldable serving : ℕ → ℕ
unfolding protocol Replay.new
serving n = n

accepts : turn 5000 5500 cache0 ≡ (ok (step (made 5000)), cache1)
unfolding serving
accepts = refl

accepts_next : turn_other 5500 cache1 ≡ (ok (step other), cache2)
unfolding serving
accepts_next = refl

refuses : turn 5000 6000 cache2 ≡ (err replayed, cache3)
unfolding serving
refuses = refl

abbrev log : List Acceptance
log = record { payload = other.0; at = 5500 } ∷ record { payload = (made 5000).0; at = 5500 } ∷ []

abbrev served : Serving
served = record { strike = cache3; now = 6000; waiting = []; accepted = log }

word : IsU64 (made 5000).0.ts_millis
unfolding built
word = omega arith

word_other : IsU64 other.0.ts_millis
unfolding built
word_other = omega arith

abbrev run : Steps toy toy_blake3 scfg (start toy toy_blake3 scfg 5500) served
run =
    then _ _ _
      (then _ _ _
        (then _ _ _
          (then _ _ _ (here (start toy toy_blake3 scfg 5500)) (
            established (start toy toy_blake3 scfg 5500) 1 (1 ∷ 2 ∷ []) (made 5000).0 ip _ _ cache1
              word accepts))
          (established _ 1 (1 ∷ 2 ∷ []) other.0 ip _ _ cache2 word_other accepts_next))
        (tick _ 6000 (omega arith)))
      (refused _ (frame0 5000) ip replayed cache3 refuses)

served-Once_example : Once toy toy_blake3 scfg log
served-Once_example = served-Once toy toy_blake3 scfg 5500 served run
