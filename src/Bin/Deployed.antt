-- ===== src/Bin/Deployed.antt =====
-- The programs together: `ortd gen-cert`, `ortd run` on the directory that it wrote, `ortc` in its
-- strict mode, and a connection of an application.
pub mod Answers
pub mod Resumed
use ort.Prelude.{
  ℕ, ◌+◌, ◌≡◌, ◌≤◌, sym, ap, ◌∙◌, List, [], false, Option, none, some, ok, ok_injective,
}
use mathlib.Core.Path.{subst}
use ort.Core.Suite.Cipher.{Blake3}
use ort.Core.Suite.V1.{Crates, v1, kem_public}
use ort.Core.Suite.V1.Documented.{IsDocumented}
use ort.Core.Pool.{client_to_server}
use ort.Core.Replay.{StrikeCache}
use ort.Core.Handshake.Honest.{IsHonest}
use ort.Proto.Messages.Frames.{Frame}
use ort.Net.Error.{OrtResult}
use ort.Net.Stream.{Stream, IsReliable}
use ort.Net.Cert.{X509, verify}
use ort.Net.Session.{Socket}
use ort.Net.Session.Fits.{IsTyped, data_frame}
use ort.Net.Session.Greets.{Greets}
use ort.Net.Forward.Shared.{Use, scheduled}
use ort.Net.Forward.Halves.{client_up, server_down}
use ort.Bin.Files.{Files, IsFileSystem}
use ort.Bin.Listeners.{Listeners}
use ort.Bin.Ortd.Main as Server
use ort.Bin.Ortd.Main.{
  Run, run, gen_cert, printed, served, dispatch, dispatch-gen_cert, dispatch-run,
}
use ort.Bin.Ortd.Issuer.{Rcgen, IsRcgen}
use ort.Bin.Ortd.Keys.{IsApart}
use ort.Bin.Ortd.Certificate.{load_server_config-gen_cert}
use ort.Bin.Ortc.Main as Client
use ort.Bin.Ortc.Main.{Cli, main-Serves}
use ort.Bin.Ortc.Identity.{load_client_config-key, choose_verifier-strict}

-- What the two daemons were given, and that they run: the server's directory was written by
-- `gen-cert`, and the client is strict and has no pinned authority.
pub record IsDeployed (F : Files) (K : Crates) (R : Rcgen) (I : Stream) (L : Listeners I)
    (server : Server.Running F K I L) (client : Client.Running F K I L) : Type 0 where
  pub dir : F.FilePath
  pub apart : IsApart F dir
  pub kem_seed : List ℕ
  pub sign_seed : List ℕ
  pub cert_seed : List ℕ
  pub lines : List (List ℕ)
  pub before : F.State
  pub certified_state : F.State
  pub certified :
      dispatch F K I L R kem_seed sign_seed cert_seed (gen_cert dir) before
      ≡ (ok (printed lines), certified_state)
  pub options : Run F K I L
  pub directory : options.args.cert ≡ some dir
  pub server_seed : List ℕ
  pub server_state : F.State
  pub server_starts :
      dispatch F K I L R server_seed sign_seed cert_seed (run options) certified_state
      ≡ (ok (served server), server_state)
  pub cli : Cli F K I L
  pub strictly : cli.args.no_strict_cert ≡ false
  pub no_authority : cli.args.ca ≡ none
  pub sig_seed : List ℕ
  pub client_before : F.State
  pub client_state : F.State
  pub client_starts : Client.main F K I L cli sig_seed client_before ≡ (ok client, client_state)

module _ (F : Files) (fs : IsFileSystem F) (K : Crates) (d : IsDocumented K) (R : Rcgen) (X : X509)
    (cert_now : ℕ) (rcgen : IsRcgen R X cert_now) (I : Stream) (L : Listeners I)
    (server : Server.Running F K I L) (client : Client.Running F K I L)
    (deployed : IsDeployed F K R I L server client) where
  -- The client accepts the key that the server has, which is that of its secret.
  pub deployed-trusted :
      (verify X client.verifier cert_now server.config.server_pk server.config.certificate ≡ ok tt)
      × (server.config.server_pk ≡ kem_public K server.config.kem_secret)
  deployed-trusted =
      let v = deployed in
      let issued =
        dispatch-gen_cert F K I L R v.kem_seed v.sign_seed v.cert_seed v.dir v.lines v.before
          v.certified_state v.certified in
      let serves =
        dispatch-run F K I L R v.server_seed v.sign_seed v.cert_seed v.options server
          v.certified_state v.server_state v.server_starts in
      let opens =
        main-Serves F K I L v.cli v.sig_seed client v.client_before v.client_state
          v.client_starts in
      let (cfg, loads, accepts, key, _) =
        load_server_config-gen_cert F fs K d R X cert_now rcgen v.dir v.apart v.options.args
          v.kem_seed v.sign_seed v.cert_seed v.server_seed v.lines v.before v.certified_state
          v.directory issued in
      let is : cfg ≡ server.config = ok_injective (ap (λ x. x.0) (sym loads ∙ serves.loads)) in
      let strict_is =
        choose_verifier-strict F v.cli.args v.client_before opens.chosen client.verifier v.strictly
          v.no_authority opens.chooses in
      (
        subst (λ c. verify X client.verifier cert_now c.server_pk c.certificate ≡ ok tt) is
            (subst (λ w. verify X w cert_now cfg.server_pk cfg.certificate ≡ ok tt) strict_is
              accepts),
        subst (λ c. c.server_pk ≡ kem_public K c.kem_secret) is key,
      )

  pub deployed-IsHonest :
      (B : Blake3) (ts now : ℕ) (src_ip nonce : List ℕ)
      → IsTyped src_ip ts nonce
      → ts ≤ now + server.config.skew_ms
      → now ≤ ts + server.config.window_ms
      → IsHonest (v1 K) B client.config server.config ts now
  deployed-IsHonest B ts now src_ip nonce typed not_ahead not_behind = record {
    client_key =
        let v = deployed in
        let opens =
          main-Serves F K I L v.cli v.sig_seed client v.client_before v.client_state
            v.client_starts in
        load_client_config-key F K v.cli.args v.sig_seed opens.chosen v.client_state client.config
          opens.loads;
    server_key = deployed-trusted.1;
    ts_word = typed.ts_word;
    not_ahead = not_ahead;
    not_behind = not_behind;
  }

  module _ (B : Blake3) (c : IsReliable I) (ts now1 now : ℕ) (src_ip r nonce : List ℕ)
      (typed : IsTyped src_ip ts nonce) (not_ahead : ts ≤ now + server.config.skew_ms)
      (not_behind : now ≤ ts + server.config.window_ms) (strike : StrikeCache)
      (strike_others : StrikeCache → StrikeCache) (client_socket server_socket : Socket I) where
    -- On first contact, with no early data: in a task of `run_client` the handshake and the pump to
    -- the tunnel, and in a task of `run_server` the handshake and the pump from it.
    abbrev pub client_pump :
        (ℕ → List Use) → ℕ → I.Reader → I.Writer → OrtResult (Option (Unit {0})) × I.Writer
    client_pump uses n pr pw =
        client_up (v1 K) B I (scheduled (v1 K) B client_to_server uses) n X client.config src_ip
          client.verifier cert_now ts r nonce [] none client.force_1rtt client_socket pr pw

    abbrev pub server_pump :
        (ℕ → List Use) → ℕ → I.Writer → OrtResult (Option (Unit {0})) × I.Writer
    server_pump uses m target =
        server_down (v1 K) B I (scheduled (v1 K) B client_to_server uses) m server.config src_ip
          now1 now strike_others strike server_socket target

    abbrev pub first_data : Frame
    first_data = data_frame K d B client.config server.config.kem_secret ts src_ip r nonce []
