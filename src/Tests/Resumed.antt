-- ===== src/Tests/Resumed.antt =====
-- A later connection, in 0-RTT, of the toy suite over the toy stream.
use ort.Prelude.{
  ℕ, ◌≡◌, ◌<◌, refl, sym, ap, ◌∙◌, List, [], ◌∷◌, ◌++◌, false, none, some, ok, length, arith,
  ltb→lt, bytes_eq→eq,
}
use ort.Net.Cert.{strict}
use ort.Net.Session.{Socket}
use ort.Net.Forward.Turns.{Turn, up_turn, down_turn}
use ort.Net.Forward.Turns.Answer.{ups, downs}
use ort.Net.Forward.Whole.{Forwarded, client_session, server_session}
use ort.Net.Forward.Whole.Stays.{client_session-stays, server_session-stays}
use ort.Net.Tunnel.Resumed.{resumed-Delivered}
use ort.Tests.Toy.{toy, toy_blake3, toy-IsCorrect, toy-IsCompact, toy_stream, toy_x509}
use ort.Tests.Handshakes.{
  ccfg, scfg, ip, nonce, hello, made, frame0, empty, honest, builds0, fresh0,
}
use ort.Tests.Tunnels.{ack-IsSendable}
use ort.Tests.Sessions.{frame-IsSendable}
use ort.Tests.Duplex.{toy-IsSteady, in_turn, typed, page, rounds, duplex}

abbrev talks : List Turn → Socket toy_stream → Forwarded toy toy_blake3 toy_stream
talks ts socket =
    client_session toy toy_blake3 toy_stream ts toy_x509 ccfg ip (strict none) 0 5000 (7 ∷ 8 ∷ [])
      nonce hello (some (3 ∷ 4 ∷ [])) false socket typed []

abbrev serves : List Turn → Socket toy_stream → Forwarded toy toy_blake3 toy_stream
serves ts socket =
    server_session toy toy_blake3 toy_stream ts scfg ip 5500 5500 (λ s. s) empty socket page
      (0 ∷ [])

abbrev sent : List ℕ
sent = (talks (up_turn ∷ up_turn ∷ []) (record { reader = []; writer = [] })).tunnel

abbrev server_socket : Socket toy_stream
server_socket = record { reader = sent; writer = [] }

abbrev replied : List ℕ
replied = (serves (up_turn ∷ up_turn ∷ []) server_socket).tunnel

abbrev client_socket : Socket toy_stream
client_socket = record { reader = replied; writer = [] }

-- The client has one round more, for the acknowledgement.
abbrev first_turns : List Turn
first_turns = rounds ++ (down_turn ∷ [])

abbrev turns_of : List Turn
turns_of = first_turns ++ in_turn 400

client_ends : (talks first_turns client_socket).answered ≡ some (ok tt)
unfolding duplex
client_ends = refl

server_ends : (serves first_turns server_socket).answered ≡ some (ok tt)
unfolding duplex
server_ends = refl

client_sends : sent ≡ (talks first_turns client_socket).tunnel
unfolding duplex
client_sends = bytes_eq→eq sent (talks first_turns client_socket).tunnel refl

server_sends : replied ≡ (serves first_turns server_socket).tunnel
unfolding duplex
server_sends = bytes_eq→eq replied (serves first_turns server_socket).tunnel refl

replied_short : length replied < downs turns_of
unfolding duplex
replied_short = ltb→lt _ _ refl

sent_short : length sent < downs turns_of
unfolding duplex
sent_short = ltb→lt _ _ refl

turns_enough : length typed < ups turns_of
unfolding duplex
turns_enough = ltb→lt _ _ refl

talks_on : talks turns_of client_socket ≡ talks first_turns client_socket
talks_on =
    client_session-stays toy toy_blake3 toy_stream first_turns (in_turn 400) (ok tt) toy_x509 ccfg
      ip (strict none) 0 5000 (7 ∷ 8 ∷ []) nonce hello (some (3 ∷ 4 ∷ [])) false client_socket typed
      [] client_ends

serves_on : serves turns_of server_socket ≡ serves first_turns server_socket
serves_on =
    server_session-stays toy toy_blake3 toy_stream first_turns (in_turn 400) (ok tt) scfg ip 5500
      5500 (λ s. s) empty server_socket page (0 ∷ []) server_ends

resumed-Delivered_example :
    ((talks turns_of client_socket).answered ≡ some (ok tt))
    × ((serves turns_of server_socket).answered ≡ some (ok tt))
    × ((serves turns_of server_socket).plain ≡ 0 ∷ 104 ∷ 105 ∷ 71 ∷ 69 ∷ 84 ∷ [])
    × ((talks turns_of client_socket).plain ≡ 79 ∷ 75 ∷ [])
resumed-Delivered_example =
    resumed-Delivered toy toy_blake3 toy_stream toy_x509 toy-IsCorrect toy-IsCompact toy-IsSteady
      ccfg scfg 5000 5500 honest ip (7 ∷ 8 ∷ []) nonce hello (strict none) 0 empty (λ s. s)
      client_socket server_socket (frame0 5000) (made 5000).1 builds0 frame-IsSendable fresh0
      turns_of turns_of typed page [] (0 ∷ []) (omega arith) (omega arith) ack-IsSendable refl refl
      (client_sends ∙ sym (ap (λ x. x.tunnel) talks_on))
      (server_sends ∙ sym (ap (λ x. x.tunnel) serves_on)) turns_enough replied_short
      (omega (arith, turns_enough)) sent_short
