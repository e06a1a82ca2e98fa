-- ===== src/Bin/Ortc/Main.antt =====
-- `main` of crates/ortc/src/main.rs, behind the parser of the crate `clap`.
use ort.Prelude.{ℕ, List, Bool, Option, ok, ◌≡◌, sym, ap, ◌∙◌, ok_injective, map_err-eq-ok}
use ort.Core.Handshake.Client.{ClientConfig}
use ort.Core.Suite.V1.{Crates, v1}
use ort.Net.Error.{IoError}
use ort.Net.Io.{Io, ◌>>=◌, lift, bind-ok}
use ort.Net.Cert.{ServerVerifier}
use ort.Net.Stream.{Stream}
use ort.Net.Run.Loops.{ClientTask, run_client}
use ort.Bin.Files.{Files}
use ort.Bin.Cli.{CliError}
use ort.Bin.Listeners.{Listeners, bind_listener}
use ort.Bin.Ortc.{Args, choose_verifier, load_client_config}

module _ (F : Files) (K : Crates) (I : Stream) (L : Listeners I) where
  -- `Cli`, with the addresses
  pub record Cli : Type 0 where
    pub listen : L.SocketAddr
    pub target : L.SocketAddr
    pub args : Args F

  -- The client: what its tasks are given, the tasks, and the error of `accept` that ended it, none
  -- while it runs.
  pub record Running : Type 0 where
    pub config : ClientConfig (v1 K)
    pub verifier : ServerVerifier
    pub force_1rtt : Bool
    pub tasks : List (ClientTask I)
    pub ended : Option IoError

  unfoldable pub run_with : Cli → ClientConfig (v1 K) → ServerVerifier → L.Listener → Running
  run_with cli ccfg verifier listener =
      let (tasks, ended) = run_client I (L.accepts listener) (L.connects cli.target) in
      record {
        config = ccfg;
        verifier = verifier;
        force_1rtt = cli.args.force_1rtt;
        tasks = tasks;
        ended = ended;
      }

  unfoldable pub main : Cli → List ℕ → Io CliError F.State Running
  main cli sig_seed = do
    verifier ← choose_verifier F cli.args
    ccfg ← load_client_config F K cli.args sig_seed
    listener ← lift (bind_listener I L cli.listen)
    lift (ok (run_with cli ccfg verifier listener))

  -- The verifier was chosen, the identity loaded, and the client accepts from the address that it
  -- was given.
  pub record Serves (cli : Cli) (sig_seed : List ℕ) (running : Running) (s s' : F.State)
      : Type 0 where
    pub chosen : F.State
    pub chooses : choose_verifier F cli.args s ≡ (ok running.verifier, chosen)
    pub loads : load_client_config F K cli.args sig_seed chosen ≡ (ok running.config, s')
    pub listener : L.Listener
    pub binds : L.bind cli.listen ≡ ok listener
    pub runs : running ≡ run_with cli running.config running.verifier listener

  pub main-Serves :
      (cli : Cli) (sig_seed : List ℕ) (running : Running) (s s' : F.State)
      → main cli sig_seed s ≡ (ok running, s')
      → Serves cli sig_seed running s s'
  unfolding main run_with bind_listener
  main-Serves cli sig_seed running s s' h =
      let (verifier, chosen, h1) = bind-ok (choose_verifier F cli.args) _ s h in
      let s1 = (choose_verifier F cli.args s).1 in
      let (ccfg, loaded, h2) = bind-ok (load_client_config F K cli.args sig_seed) _ s1 h1 in
      let (listener, bound, h3) = bind-ok (lift (bind_listener I L cli.listen)) _ _ h2 in
      let is : run_with cli ccfg verifier listener ≡ running = ok_injective (ap (λ x. x.0) h3) in
      let same : ccfg ≡ running.config = ap (λ x. x.config) is in
      let same' : verifier ≡ running.verifier = ap (λ x. x.verifier) is in
      record {
        chosen = s1;
        chooses = λ i. ((chosen ∙ ap (λ x. ok x) same') i, s1);
        loads = λ i. ((loaded ∙ ap (λ x. ok x) same) i, ap (λ x. x.1) h3 i);
        listener = listener;
        binds = map_err-eq-ok _ _ bound;
        runs = sym is ∙ (λ i. run_with cli (same i) (same' i) listener);
      }
