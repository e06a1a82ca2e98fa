-- ===== src/Tests/Deployments.antt =====
-- The programs deployed on a file system in memory, with crates that do what they document.
use ort.Prelude.{
  ℕ, ◌≡◌, refl, sym, List, [], ◌∷◌, length, false, Option, none, some, ok, err, replicate, IsByte,
  IsBytes, All-append, arith,
}
use mathlib.Core.Path.{subst}
use ort.Core.Suite.V1.{v1, kem_generate, kem_public}
use ort.Core.Handshake.Server.{server_hello}
use ort.Core.Replay
use ort.Net.Cert.{strict}
use ort.Net.Error.{OrtResult, other}
use ort.Net.Session.{Socket}
use ort.Net.Session.Greets.{Greets}
use ort.Net.Session.Wire.{on_wire}
use ort.Bin.Deployed.{IsDeployed, client_pump, server_pump}
use ort.Net.Run.{v4, ip_to_bytes}
use ort.Net.Run.Loops.{
  reached, accept_loop, server_task as as_task, server_tasks, run_server, source_ip, connect_ortd,
  client_tasks, run_client,
}
use ort.Bin.Listeners.{Listeners, bind_listener}
use ort.Bin.Ortd.Main as Server
use ort.Bin.Ortd.Main.{Run, run, gen_cert, printed, served, dispatch}
use ort.Bin.Ortc.Main as Client
use ort.Bin.Ortc.Main.{Cli}
use ort.Bin.Ortc.{choose_verifier}
use ort.Tests.Toy.{toy_blake3, toy_stream, toy-IsReliable, toy_x509}
use ort.Tests.Handshakes.{empty}
use ort.Tests.Arrays.{zeros, zeros-IsBytes, array, array-long, length-zeros}
use ort.Tests.Crates.{toy_crates, documented, typed}
use ort.Tests.Binaries.{
  memory, memory-IsFileSystem, memory-IsApart, toy_rcgen, toy_rcgen-IsRcgen, args, seed, certified,
  certified_lines, certifies, client_args, identity, identified, identifies, before, loads,
}
use ort.Tests.Tunnels.{busy}

abbrev pub silent : Socket toy_stream
silent = record { reader = []; writer = [] }

-- One socket is accepted by each daemon, and then the process runs out of file descriptors. The
-- server is reached at once.
abbrev pub local : Listeners toy_stream
local = record {
  SocketAddr = List ℕ;
  Listener = List ℕ;
  display = λ a. "address";
  bind = λ a. ok a;
  accepts = λ l. ok (silent, v4 l) ∷ err (other 24) ∷ ok (silent, v4 l) ∷ [];
  connects = λ a. ok (silent, ok (v4 a)) ∷ [];
}

abbrev options : Run memory toy_crates toy_stream local
options = record { listen = 10 ∷ 0 ∷ 0 ∷ 1 ∷ []; target = 10 ∷ 0 ∷ 0 ∷ 2 ∷ []; args = args }

abbrev pub server : Server.Running memory toy_crates toy_stream local
server = record {
  config = before;
  target = 10 ∷ 0 ∷ 0 ∷ 2 ∷ [];
  strike = Replay.new 2000;
  tasks = record { socket = silent; peer_ip = ip_to_bytes (v4 (10 ∷ 0 ∷ 0 ∷ 1 ∷ [])) } ∷ [];
  ended = some (other 24);
}

abbrev cli : Cli memory toy_crates toy_stream local
cli = record { listen = 127 ∷ 0 ∷ 0 ∷ 1 ∷ []; target = 10 ∷ 0 ∷ 0 ∷ 1 ∷ []; args = client_args }

abbrev pub client : Client.Running memory toy_crates toy_stream local
client = record {
  config = identity;
  verifier = strict none;
  force_1rtt = false;
  tasks =
      record { app = silent; ortd = reached silent (ip_to_bytes (v4 (10 ∷ 0 ∷ 0 ∷ 1 ∷ []))) } ∷ [];
  ended = some (other 24);
}

certified_by :
    dispatch memory toy_crates toy_stream local toy_rcgen
      (seed 0)
      (seed 2)
      (seed 3)
      (gen_cert [])
      []
    ≡ (ok (printed certified_lines), certified)
unfolding dispatch
certified_by = rw certifies

serves :
    dispatch memory toy_crates toy_stream local toy_rcgen
      (seed 9)
      (seed 2)
      (seed 3)
      (run options)
      certified
    ≡ (ok (served server), certified)
unfolding dispatch Server.run_command Server.run_with run_server accept_loop server_tasks as_task
    bind_listener
serves = rw loads

opens : Client.main memory toy_crates toy_stream local cli (seed 4) [] ≡ (ok client, identified)
unfolding Client.main Client.run_with run_client accept_loop client_tasks connect_ortd source_ip
    bind_listener choose_verifier
opens = rw identifies

pub deployed : IsDeployed memory toy_crates toy_rcgen toy_stream local server client
deployed = record {
  dir = [];
  apart = memory-IsApart;
  kem_seed = seed 0;
  sign_seed = seed 2;
  cert_seed = seed 3;
  lines = certified_lines;
  before = [];
  certified_state = certified;
  certified = certified_by;
  options = options;
  directory = refl;
  server_seed = seed 9;
  server_state = certified;
  server_starts = serves;
  cli = cli;
  strictly = refl;
  no_authority = refl;
  sig_seed = seed 4;
  client_before = [];
  client_state = identified;
  client_starts = opens;
}

abbrev pub app : List ℕ
app = 71 ∷ 69 ∷ 84 ∷ []

abbrev greeted : Socket toy_stream
greeted = record { reader = on_wire (server_hello (v1 toy_crates) before 5400); writer = [] }

abbrev sending : OrtResult (Option (Unit {0})) × List ℕ
sending =
    client_pump memory memory-IsFileSystem toy_crates documented toy_rcgen toy_x509 7
      (toy_rcgen-IsRcgen 7) toy_stream local server client deployed toy_blake3 toy-IsReliable 5000
      5400 5500 (replicate 16 7) (zeros 32) (replicate 32 50) typed (omega arith) (omega arith)
      empty (λ s. s) greeted silent busy 9 app []

abbrev hearing : Socket toy_stream
hearing = record { reader = sending.1; writer = [] }

abbrev delivering : OrtResult (Option (Unit {0})) × List ℕ
delivering =
    server_pump memory memory-IsFileSystem toy_crates documented toy_rcgen toy_x509 7
      (toy_rcgen-IsRcgen 7) toy_stream local server client deployed toy_blake3 toy-IsReliable 5000
      5400 5500 (replicate 16 7) (zeros 32) (replicate 32 50) typed (omega arith) (omega arith)
      empty (λ s. s) greeted hearing busy (length sending.1) (0 ∷ [])

key-IsBytes : IsBytes (kem_public toy_crates (kem_generate toy_crates (seed 0)))
unfolding kem_public kem_generate zeros array
key-IsBytes =
    All-append IsByte (array 64 (seed 0)).0 (zeros 1120)
      (subst IsBytes (sym (array-long 64 (seed 0) (omega (arith, length-zeros 63))))
        (omega arith, zeros-IsBytes 63))
      (zeros-IsBytes 1120)

key-length : length before.server_pk ≡ 1184
unfolding kem_public
key-length = documented.ml_kem.ek_length (kem_generate toy_crates (seed 0))

pub greets : Greets before.server_pk before.certificate 5400
greets = record {
  key_bytes = key-IsBytes;
  certificate_bytes = (omega arith, key-IsBytes);
  certificate_short = omega (arith, key-length);
  now_word = omega arith;
}
