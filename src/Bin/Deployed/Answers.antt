-- ===== src/Bin/Deployed/Answers.antt =====
-- The other direction of a first contact, from the target to the application.
use ort.Prelude.{ℕ, ◌+◌, ◌≤◌, List, [], Option, none}
use ort.Core.Suite.Cipher.{Blake3}
use ort.Core.Suite.V1.{Crates, v1}
use ort.Core.Suite.V1.Documented.{IsDocumented}
use ort.Core.Pool.{server_to_client}
use ort.Core.Replay.{StrikeCache}
use ort.Proto.Messages.Frames.{Frame}
use ort.Net.Error.{OrtResult}
use ort.Net.Stream.{Stream, IsReliable}
use ort.Net.Cert.{X509}
use ort.Net.Session.{Socket}
use ort.Net.Session.Fits.{IsTyped, data_frame}
use ort.Net.Session.Greets.{Greets}
use ort.Net.Forward.Shared.{Use, scheduled}
use ort.Net.Forward.Halves.{server_up, client_down}
use ort.Bin.Files.{Files, IsFileSystem}
use ort.Bin.Listeners.{Listeners}
use ort.Bin.Ortd.Main as Server
use ort.Bin.Ortd.Issuer.{Rcgen, IsRcgen}
use ort.Bin.Ortc.Main as Client
use ort.Bin.Deployed.{IsDeployed}

module _ (F : Files) (fs : IsFileSystem F) (K : Crates) (d : IsDocumented K) (R : Rcgen) (X : X509)
    (cert_now : ℕ) (rcgen : IsRcgen R X cert_now) (I : Stream) (L : Listeners I)
    (server : Server.Running F K I L) (client : Client.Running F K I L)
    (deployed : IsDeployed F K R I L server client) (B : Blake3) (c : IsReliable I)
    (ts now1 now : ℕ) (src_ip r nonce : List ℕ) (typed : IsTyped src_ip ts nonce)
    (not_ahead : ts ≤ now + server.config.skew_ms) (not_behind : now ≤ ts + server.config.window_ms)
    (strike : StrikeCache) (strike_others : StrikeCache → StrikeCache)
    (client_socket server_socket : Socket I) where
  abbrev pub server_pump :
      (ℕ → List Use) → ℕ → I.Reader → I.Writer → OrtResult (Option (Unit {0})) × I.Writer
  server_pump uses n pr pw =
      server_up (v1 K) B I (scheduled (v1 K) B server_to_client uses) n server.config src_ip now1
        now strike_others strike server_socket pr pw

  abbrev pub client_pump : (ℕ → List Use) → ℕ → I.Writer → OrtResult (Option (Unit {0})) × I.Writer
  client_pump uses m app =
      client_down (v1 K) B I (scheduled (v1 K) B server_to_client uses) m X client.config src_ip
        client.verifier cert_now ts r nonce [] none client.force_1rtt client_socket app

  abbrev pub first_data : Frame
  first_data = data_frame K d B client.config server.config.kem_secret ts src_ip r nonce []
