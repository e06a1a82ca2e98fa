-- ===== src/Bin/Deployed/Resumed.antt =====
-- The connections behind the first, with the server's key pinned.
use ort.Prelude.{Bool, ℕ, ◌+◌, ◌≤◌, List, [], Option, some}
use ort.Core.Suite.Cipher.{Blake3}
use ort.Core.Suite.V1.{Crates, v1}
use ort.Core.Suite.V1.Documented.{IsDocumented}
use ort.Core.Pool.{client_to_server}
use ort.Core.Replay.{StrikeCache}
use ort.Proto.Messages.Frames.{Frame}
use ort.Net.Error.{OrtResult}
use ort.Net.Stream.{Stream, IsReliable}
use ort.Net.Cert.{X509}
use ort.Net.Session.{Socket}
use ort.Net.Session.Fits.{IsTyped, zero_rtt_frame}
use ort.Net.Forward.Shared.{Use, scheduled}
use ort.Net.Forward.Halves.{client_up, server_down}
use ort.Bin.Files.{Files, IsFileSystem}
use ort.Bin.Listeners.{Listeners}
use ort.Bin.Ortd.Main as Server
use ort.Bin.Ortd.Issuer.{Rcgen, IsRcgen}
use ort.Bin.Ortc.Main as Client
use ort.Bin.Deployed.{IsDeployed}

module _ (F : Files) (fs : IsFileSystem F) (K : Crates) (d : IsDocumented K) (R : Rcgen) (X : X509)
    (cert_now : ℕ) (rcgen : IsRcgen R X cert_now) (I : Stream) (L : Listeners I)
    (server : Server.Running F K I L) (client : Client.Running F K I L)
    (deployed : IsDeployed F K R I L server client) (B : Blake3) (c : IsReliable I) (ts now : ℕ)
    (src_ip r nonce : List ℕ) (typed : IsTyped src_ip ts nonce)
    (not_ahead : ts ≤ now + server.config.skew_ms) (not_behind : now ≤ ts + server.config.window_ms)
    (strike : StrikeCache) (strike_others : StrikeCache → StrikeCache)
    (client_socket server_socket : Socket I) where
  -- With a pin: in a task of `run_client` the handshake and the pump to the tunnel, and in a task
  -- of `run_server` the handshake and the pump from it.
  abbrev pub client_pump :
      Bool → (ℕ → List Use) → ℕ → I.Reader → I.Writer → OrtResult (Option (Unit {0})) × I.Writer
  client_pump force_1rtt uses n pr pw =
      client_up (v1 K) B I (scheduled (v1 K) B client_to_server uses) n X client.config src_ip
        client.verifier cert_now ts r nonce [] (some server.config.server_pk) force_1rtt
        client_socket pr pw

  abbrev pub server_pump : (ℕ → List Use) → ℕ → I.Writer → OrtResult (Option (Unit {0})) × I.Writer
  server_pump uses m target =
      server_down (v1 K) B I (scheduled (v1 K) B client_to_server uses) m server.config src_ip now
        now strike_others strike server_socket target

  abbrev pub first_frame : Frame
  first_frame = zero_rtt_frame K d B client.config server.config.kem_secret ts src_ip r nonce []
