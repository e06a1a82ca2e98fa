-- ===== src/Net/Run/Loops.antt =====
-- The accept loops of `run_server` and `run_client` of crates/ort-net/src/run.rs: what `accept`
-- answers, one time after the other, and the tasks that are spawned. What the tasks then do is in
-- Net/Run, Net/Run/Served and Net/Forward/Halves.
use ort.Prelude.{ℕ, List, [], ◌∷◌, ◌++◌, map, ◌≡◌, refl, Option, none, some, ok, err, replicate}
use ort.Core.Suite.Cipher.{CipherSuite}
use ort.Core.Replay
use ort.Core.Replay.{StrikeCache}
use ort.Core.Handshake.Server.{ServerConfig}
use ort.Net.Error.{IoError, IoResult}
use ort.Net.Stream.{Stream}
use ort.Net.Session.{Socket}
use ort.Net.Run.{IpAddr, ip_to_bytes}

-- The connections so far, and the error that ended the loop, none while it runs.
unfoldable pub accept_loop {ℓ} : {A : Type ℓ} → List (IoResult A) → List A × Option IoError
accept_loop [] = ([], none)
accept_loop (err e ∷ answers) = ([], some e)
accept_loop (ok a ∷ answers) = let (tasks, ended) = accept_loop answers in (a ∷ tasks, ended)

-- The first error of `accept` ends the loop, whatever would come behind it.
accept_loop-err {ℓ} :
    {A : Type ℓ} (tasks : List A) (e : IoError) (behind : List (IoResult A))
    → accept_loop (map (λ a. ok a) tasks ++ (err e ∷ behind)) ≡ (tasks, some e)
unfolding accept_loop
accept_loop-err [] e behind = refl
accept_loop-err (a ∷ tasks) e behind = rw (accept_loop-err tasks e behind)

-- `Ok(a) => ip_to_bytes(a.ip())`, and zeros where the socket has no address.
unfoldable pub source_ip : IoResult IpAddr → List ℕ
source_ip (ok a) = ip_to_bytes a
source_ip (err e) = replicate 16 0

module _ (I : Stream) where
  -- A task of the server: its socket, and the address of the peer in sixteen bytes.
  pub record ServerTask : Type 0 where
    pub socket : Socket I
    pub peer_ip : List ℕ

  unfoldable pub server_task : Socket I × IpAddr → ServerTask
  server_task (socket, peer) = record { socket = socket; peer_ip = ip_to_bytes peer }

  unfoldable pub server_tasks : List (Socket I × IpAddr) → List ServerTask
  server_tasks [] = []
  server_tasks (a ∷ as') = server_task a ∷ server_tasks as'

  -- The cache that the tasks share, the tasks, and the error.
  unfoldable pub run_server :
      (S : CipherSuite)
      → ServerConfig S
      → List (IoResult (Socket I × IpAddr))
      → StrikeCache × List ServerTask × Option IoError
  run_server S scfg answers =
      let (accepted, ended) = accept_loop answers in
      (Replay.new scfg.window_ms, server_tasks accepted, ended)

  -- A task's connection to the server: not made yet, given up, or made, with the address that it
  -- comes from.
  pub data Ortd : Type 0 where
    connecting : Ortd
    unreachable : IoError → Ortd
    reached : Socket I → List ℕ → Ortd

  -- What connecting answers, and then `local_addr`.
  unfoldable pub connect_ortd : IoResult (Socket I × IoResult IpAddr) → Ortd
  connect_ortd (ok (socket, local_addr)) = reached socket (source_ip local_addr)
  connect_ortd (err e) = unreachable e

  -- A task of the client: the application's socket, and the one to the server.
  pub record ClientTask : Type 0 where
    pub app : Socket I
    pub ortd : Ortd

  -- The tasks connect in their order.
  unfoldable pub client_tasks :
      List (Socket I × IpAddr) → List (IoResult (Socket I × IoResult IpAddr)) → List ClientTask
  client_tasks [] connects = []
  client_tasks ((app, _) ∷ accepted) [] =
      record { app = app; ortd = connecting } ∷ client_tasks accepted []
  client_tasks ((app, _) ∷ accepted) (connect ∷ connects) =
      record { app = app; ortd = connect_ortd connect } ∷ client_tasks accepted connects

  unfoldable pub run_client :
      List (IoResult (Socket I × IpAddr))
      → List (IoResult (Socket I × IoResult IpAddr))
      → List ClientTask × Option IoError
  run_client answers connects =
      let (accepted, ended) = accept_loop answers in (client_tasks accepted connects, ended)
