-- ===== src/Tests/Tunnels.antt =====
-- A tunnel of the toy suite over the toy stream, from the handshake to the other application.
use ort.Prelude.{ℕ, ◌≤◌, refl, List, [], ◌∷◌, ◌++◌, Option, none, length, arith, ltb→le}
use ort.Proto.Messages.Frames.{server_ack}
use ort.Net.Cert.{strict}
use ort.Net.Error.{OrtResult}
use ort.Net.Session.{Socket}
use ort.Net.Session.Wire.{IsSendable, on_wire}
use ort.Net.Forward.Shared.{Use, seals, opens}
use ort.Net.Forward.Halves.{client_up, server_up, forward_up}
use ort.Net.Session
use ort.Net.Forward
use ort.Net.Tunnel.{client_sends, server_delivers, server_sends, client_delivers}
use ort.Tests.Toy.{
  toy, toy_blake3, toy-IsCorrect, toy-IsCompact, toy_stream, toy-IsReliable, toy_x509,
}
use ort.Tests.Handshakes.{
  ccfg, scfg, ip, nonce, hello, made, frame0, empty, honest, builds0, fresh0,
}
use ort.Tests.Sessions.{net, fresh, frame-IsSendable}
use ort.Proto.Codec.Reader
use ort.Proto.Messages.Payload
use ort.Tests.Pumps.{pumping}
use ort.Tests.Tasks.{decoding}

-- The other pump seals a record and opens one before each chunk.
abbrev pub busy : ℕ → List Use
busy n = seals (9 ∷ []) ∷ opens (8 ∷ []) ∷ []

-- What the application wrote, and what the target did.
abbrev pub typed : List ℕ
typed = 71 ∷ 69 ∷ 84 ∷ []

abbrev unheard : Socket toy_stream
unheard = record { reader = []; writer = [] }

abbrev sending : OrtResult (Option (Unit {0})) × List ℕ
sending =
    client_sends toy toy_blake3 toy_stream toy_x509 toy-IsCorrect toy-IsCompact toy-IsReliable ccfg
      scfg 5000 5500 honest ip (7 ∷ 8 ∷ []) nonce hello (strict none) 0 empty (λ s. s) fresh unheard
      (frame0 5000) (made 5000).1 builds0 frame-IsSendable fresh0 busy 9 typed []

abbrev hearing : Socket toy_stream
hearing = record { reader = sending.1; writer = [] }

abbrev delivering : OrtResult (Option (Unit {0})) × List ℕ
delivering =
    server_delivers toy toy_blake3 toy_stream toy_x509 toy-IsCorrect toy-IsCompact toy-IsReliable
      ccfg scfg 5000 5500 honest ip (7 ∷ 8 ∷ []) nonce hello (strict none) 0 empty (λ s. s) fresh
      hearing (frame0 5000) (made 5000).1 builds0 frame-IsSendable fresh0 busy 900 (0 ∷ [])

unfoldable pub tunnelling : ℕ → ℕ
unfolding pumping net client_up forward_up Forward.flush_early Session.send_dir
tunnelling n = n

sent_length : length sending.1 ≤ 900
unfolding tunnelling
sent_length = ltb→le _ _ refl

-- The other direction. The client's pump has sent one byte of its next frame.
abbrev greeted : Socket toy_stream
greeted = record { reader = on_wire (frame0 5000) ++ (0 ∷ []); writer = [] }

abbrev answering : OrtResult (Option (Unit {0})) × List ℕ
answering =
    server_sends toy toy_blake3 toy_stream toy_x509 toy-IsCorrect toy-IsCompact toy-IsReliable ccfg
      scfg 5000 5500 honest ip (7 ∷ 8 ∷ []) nonce hello (strict none) 0 empty (λ s. s) fresh greeted
      (frame0 5000) (made 5000).1 builds0 frame-IsSendable fresh0 busy 9 typed []

abbrev waiting : Socket toy_stream
waiting = record { reader = answering.1; writer = [] }

abbrev receiving : OrtResult (Option (Unit {0})) × List ℕ
receiving =
    client_delivers toy toy_blake3 toy_stream toy_x509 toy-IsCorrect toy-IsCompact toy-IsReliable
      ccfg scfg 5000 5500 honest ip (7 ∷ 8 ∷ []) nonce hello (strict none) 0 empty (λ s. s) waiting
      greeted (frame0 5000) (made 5000).1 builds0 frame-IsSendable fresh0 busy 900 (0 ∷ [])

unfoldable pub replying : ℕ → ℕ
unfolding pumping net decoding Payload.read Reader.array server_up forward_up Forward.flush_early
    Session.send_dir Session.recv_dir Session.server_accept Session.answer Session.receive
replying n = n

answer_length : length answering.1 ≤ 900
unfolding replying
answer_length = ltb→le _ _ refl

pub ack-IsSendable : IsSendable (server_ack (made 5000).1.expected_ek_hash)
unfolding net
ack-IsSendable = (omega arith, ltb→le _ _ refl)
