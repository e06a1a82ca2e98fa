-- ===== src/Tests/Duplex.antt =====
-- Both ends of a tunnel at once, each with both its pumps, of the toy suite over the toy stream.
use ort.Prelude.{
  ℕ, zero, suc, ◌≡◌, ◌<◌, refl, sym, ap, ◌∙◌, List, [], ◌∷◌, ◌++◌, append-nil, false, none, some,
  ok, length, take, drop, take-append-drop, length-take, arith, ltb, ltb→lt, bytes_eq→eq,
  Bool-cases, inl, inr,
}
use ort.Core.Pool.{client_to_server, server_to_client}
use ort.Core.Handshake.Server.{server_hello}
use ort.Net.Cert.{trust_on_first_use}
use ort.Net.Stream.{IsSteady}
use ort.Net.Session.{Socket}
use ort.Net.Session
use ort.Net.Session.Wire.{on_wire}
use ort.Net.Forward
use ort.Net.Forward.Turns.{
  Joint, Turn, up_turn, down_turn, running, turns, answer, up_round, down_round,
}
use ort.Net.Forward.Turns.Settled.{turns-behind}
use ort.Net.Forward.Turns.Answer.{ups, downs}
use ort.Net.Forward.Turns.Both.{turns-Delivered}
use ort.Net.Forward.Whole.{Forwarded, forward, client_session, server_session}
use ort.Net.Forward.Whole.Stays.{client_session-stays, server_session-stays}
use ort.Net.Tunnel.Both.{sessions-Delivered}
use ort.Proto.Messages.Payload
use ort.Proto.Codec.Reader
use ort.Tests.Toy.{
  toy, toy_blake3, toy-IsCorrect, toy-IsCompact, toy_stream, toy-IsReliable, toy_x509,
}
use ort.Tests.Handshakes.{ccfg, scfg, ip, nonce, hello, made, empty, honest, builds1, fresh1}
use ort.Tests.Pumps.{layer, pumping}
use ort.Tests.Tasks.{decoding}
use ort.Tests.Failures.{failing}
use ort.Tests.Tunnels.{tunnelling, replying}
use ort.Tests.Sessions.{
  data_frame, contacted, data-IsSendable, hello-IsSendable, answer-IsSendable, trusts, net,
}

pub reads_exact :
    (r : List ℕ) (n : ℕ)
    → (taken : List ℕ) × (r ≡ taken ++ (toy_stream.read_exact n r).1)
      × ((bs : List ℕ) → (toy_stream.read_exact n r).0 ≡ ok bs → (bs ≡ taken) × (length bs ≡ n))
reads_exact r n = elim (Bool-cases (ltb (length r) n)) [
  | inl short ↦ rw short (r, sym (append-nil r), λ bs h. absurd (cc h))
  | inr enough ↦ rw enough (
    take n r,
    sym (take-append-drop n r),
    λ bs h. let is : take n r ≡ bs = cc h in (sym is, rw (← is) (ground (arith, length-take n r))),
  )
]

abbrev pub toy-IsSteady : IsSteady toy_stream
toy-IsSteady = record {
  reliable = toy-IsReliable;
  ordered = record {
    pending = λ r. r;
    sent = λ w. w;
    reads = λ r n. (
      take n r,
      sym (take-append-drop n r),
      λ chunk h.
          let is : take n r ≡ chunk = cc h in (sym is, rw (← is) (omega (arith, length-take n r))),
    );
    reads_exact = reads_exact;
    writes = λ w bs. (bs, [], sym (append-nil bs), refl, λ h. refl);
    flushes = λ w. refl;
    shuts = λ w. refl;
  };
  same_pending = λ r. refl;
}

-- The pumps of an end in turn.
unfoldable pub in_turn : ℕ → List Turn
in_turn zero = []
in_turn (suc n) = up_turn ∷ down_turn ∷ in_turn n

abbrev end : List ℕ → List ℕ → List ℕ → Joint toy toy_blake3 toy_stream
end pr pw reader = record {
  pr = pr;
  pw = pw;
  reader = reader;
  writer = [];
  layer = layer;
  up = running;
  down = running;
}

unfoldable pub duplex : ℕ → ℕ
unfolding failing pumping net decoding tunnelling replying Payload.read Reader.array in_turn turns
    up_round down_round answer ups downs client_session server_session forward Forward.flush_early
    Session.send_dir Session.recv_dir Session.server_accept Session.answer Session.receive
    Forward.down
duplex n = n

-- What each end writes does not depend on what comes to it.
abbrev pub typed : List ℕ
typed = 71 ∷ 69 ∷ 84 ∷ []

abbrev pub page : List ℕ
page = 79 ∷ 75 ∷ []

abbrev from_client : List ℕ
from_client =
    (turns toy toy_blake3 toy_stream client_to_server (up_turn ∷ up_turn ∷ [])
      (end typed [] [])).writer

abbrev from_server : List ℕ
from_server =
    (turns toy toy_blake3 toy_stream server_to_client (up_turn ∷ up_turn ∷ [])
      (end page (0 ∷ []) [])).writer

abbrev client_end : Joint toy toy_blake3 toy_stream
client_end = end typed [] from_server

abbrev server_end : Joint toy toy_blake3 toy_stream
server_end = end page (0 ∷ []) from_client

-- Two rounds of each pump are enough, and more turns change nothing.
abbrev pub rounds : List Turn
rounds = up_turn ∷ up_turn ∷ down_turn ∷ down_turn ∷ []

abbrev order : List Turn
order = rounds ++ in_turn 40

abbrev client_done : Joint toy toy_blake3 toy_stream
client_done = turns toy toy_blake3 toy_stream client_to_server rounds client_end

abbrev server_done : Joint toy toy_blake3 toy_stream
server_done = turns toy toy_blake3 toy_stream server_to_client rounds server_end

client_answers : answer client_done.up client_done.down ≡ some (ok tt)
unfolding duplex
client_answers = refl

server_answers : answer server_done.up server_done.down ≡ some (ok tt)
unfolding duplex
server_answers = refl

client_writes : client_done.writer ≡ from_client
unfolding duplex
client_writes = bytes_eq→eq client_done.writer from_client refl

server_writes : server_done.writer ≡ from_server
unfolding duplex
server_writes = bytes_eq→eq server_done.writer from_server refl

client_order : turns toy toy_blake3 toy_stream client_to_server order client_end ≡ client_done
client_order =
    turns-behind toy toy_blake3 toy_stream client_to_server rounds (in_turn 40) client_end (ok tt)
      client_answers

server_order : turns toy toy_blake3 toy_stream server_to_client order server_end ≡ server_done
server_order =
    turns-behind toy toy_blake3 toy_stream server_to_client rounds (in_turn 40) server_end (ok tt)
      server_answers

client_reads : length from_server < downs order
unfolding duplex
client_reads = ltb→lt _ _ refl

server_reads : length from_client < downs order
unfolding duplex
server_reads = ltb→lt _ _ refl

up_turns : length typed < ups order
unfolding duplex
up_turns = ltb→lt _ _ refl

turns-Delivered_example :
    (answer
        (turns toy toy_blake3 toy_stream client_to_server order client_end).up
        (turns toy toy_blake3 toy_stream client_to_server order client_end).down
      ≡ some (ok tt))
    × (answer
          (turns toy toy_blake3 toy_stream server_to_client order server_end).up
          (turns toy toy_blake3 toy_stream server_to_client order server_end).down
        ≡ some (ok tt))
    × ((turns toy toy_blake3 toy_stream server_to_client order server_end).pw
        ≡ 0 ∷ 71 ∷ 69 ∷ 84 ∷ [])
    × ((turns toy toy_blake3 toy_stream client_to_server order client_end).pw ≡ 79 ∷ 75 ∷ [])
turns-Delivered_example =
    turns-Delivered toy toy_blake3 toy_stream toy-IsCorrect toy-IsCompact toy-IsSteady order order
      client_end server_end refl refl refl refl (record { key = refl; pool = refl })
      (record { key = refl; pool = refl }) (omega arith) (omega arith)
      (ap (λ t. t.writer) client_order ∙ client_writes)
      (ap (λ t. t.writer) server_order ∙ server_writes) up_turns client_reads
      (omega (arith, up_turns)) server_reads

-- The same from the handshake on: first contact. What is sent does not depend on what is read behind
-- the handshake.
abbrev talks : List Turn → Socket toy_stream → Forwarded toy toy_blake3 toy_stream
talks ts socket =
    client_session toy toy_blake3 toy_stream ts toy_x509 ccfg ip trust_on_first_use 0 5000
      (7 ∷ 8 ∷ []) nonce hello none false socket typed []

abbrev serves : List Turn → Socket toy_stream → Forwarded toy toy_blake3 toy_stream
serves ts socket =
    server_session toy toy_blake3 toy_stream ts scfg ip 5400 5500 (λ s. s) empty socket page
      (0 ∷ [])

abbrev sent : List ℕ
sent = (talks (up_turn ∷ up_turn ∷ []) contacted).tunnel

abbrev server_socket : Socket toy_stream
server_socket = record { reader = sent; writer = [] }

abbrev replied : List ℕ
replied = (serves (up_turn ∷ up_turn ∷ []) server_socket).tunnel

abbrev client_socket : Socket toy_stream
client_socket = record { reader = replied; writer = [] }

abbrev turns_of : List Turn
turns_of = rounds ++ in_turn 400

client_ends : (talks rounds client_socket).answered ≡ some (ok tt)
unfolding duplex
client_ends = refl

server_ends : (serves rounds server_socket).answered ≡ some (ok tt)
unfolding duplex
server_ends = refl

client_sends : sent ≡ (talks rounds client_socket).tunnel
unfolding duplex
client_sends = bytes_eq→eq sent (talks rounds client_socket).tunnel refl

server_sends : replied ≡ (serves rounds server_socket).tunnel
unfolding duplex
server_sends = bytes_eq→eq replied (serves rounds server_socket).tunnel refl

abbrev greeting : List ℕ
greeting = on_wire (server_hello toy scfg 5400)

greeted : replied ≡ greeting ++ drop (length greeting) replied
unfolding duplex
greeted = bytes_eq→eq replied (greeting ++ drop (length greeting) replied) refl

replied_short : length replied < downs turns_of
unfolding duplex
replied_short = ltb→lt _ _ refl

sent_short : length sent < downs turns_of
unfolding duplex
sent_short = ltb→lt _ _ refl

turns_enough : length typed < ups turns_of
unfolding duplex
turns_enough = ltb→lt _ _ refl

talks_on : talks turns_of client_socket ≡ talks rounds client_socket
talks_on =
    client_session-stays toy toy_blake3 toy_stream rounds (in_turn 400) (ok tt) toy_x509 ccfg ip
      trust_on_first_use 0 5000 (7 ∷ 8 ∷ []) nonce hello none false client_socket typed []
      client_ends

serves_on : serves turns_of server_socket ≡ serves rounds server_socket
serves_on =
    server_session-stays toy toy_blake3 toy_stream rounds (in_turn 400) (ok tt) scfg ip 5400 5500
      (λ s. s) empty server_socket page (0 ∷ []) server_ends

sessions-Delivered_example :
    ((talks turns_of client_socket).answered ≡ some (ok tt))
    × ((serves turns_of server_socket).answered ≡ some (ok tt))
    × ((serves turns_of server_socket).plain ≡ 0 ∷ 104 ∷ 105 ∷ 71 ∷ 69 ∷ 84 ∷ [])
    × ((talks turns_of client_socket).plain ≡ 79 ∷ 75 ∷ [])
sessions-Delivered_example =
    sessions-Delivered toy toy_blake3 toy_stream toy_x509 toy-IsCorrect toy-IsCompact toy-IsSteady
      ccfg scfg 5000 5500 honest ip (7 ∷ 8 ∷ []) nonce hello trust_on_first_use 0 empty (λ s. s)
      client_socket server_socket data_frame (made 5000).1 5400 false builds1 trusts
      hello-IsSendable answer-IsSendable data-IsSendable fresh1 turns_of turns_of typed page []
      (0 ∷ []) (drop (length greeting) replied) (omega arith) (omega arith) refl refl greeted
      (client_sends ∙ sym (ap (λ x. x.tunnel) talks_on))
      (server_sends ∙ sym (ap (λ x. x.tunnel) serves_on)) turns_enough replied_short
      (omega (arith, turns_enough)) sent_short
