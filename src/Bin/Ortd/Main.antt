-- ===== src/Bin/Ortd/Main.antt =====
-- `main` of crates/ortd/src/main.rs: the subcommands, and `run`. The parser of the crate `clap` is a
-- parameter, which ends the process where it answers `none`; what is logged is left out.
use ort.Prelude.{ℕ, List, Option, none, some, ok, ◌≡◌, sym, ap, ◌∙◌, ok_injective, map_err-eq-ok}
use Prim.Native.String.{String}
use ort.Core.Replay.{StrikeCache}
use ort.Core.Handshake.Server.{ServerConfig}
use ort.Core.Suite.V1.{Crates, v1}
use ort.Net.Error.{IoError}
use ort.Net.Io.{Io, ◌>>=◌, lift, bind-ok}
use ort.Net.Stream.{Stream}
use ort.Net.Run.Loops.{ServerTask, run_server}
use ort.Bin.Files.{Files}
use ort.Bin.Cli.{CliError}
use ort.Bin.Listeners.{Listeners, bind_listener}
use ort.Bin.Ortd
use ort.Bin.Ortd.{RunArgs, load_server_config, default_run}
use ort.Bin.Ortd.Issuer.{Rcgen}

module _ (F : Files) (K : Crates) (I : Stream) (L : Listeners I) where
  -- The options of `run`, with the addresses.
  pub record Run : Type 0 where
    pub listen : L.SocketAddr
    pub target : L.SocketAddr
    pub args : RunArgs F K

  pub data Commands : Type 0 where
    run : Run → Commands
    -- with `--out`
    gen_key : F.FilePath → Commands
    gen_cert : F.FilePath → Commands

  -- The server: what its tasks share, the tasks, where they forward to, and the error of `accept`
  -- that ended it, none while it runs.
  pub record Running : Type 0 where
    pub config : ServerConfig (v1 K)
    pub target : L.SocketAddr
    pub strike : StrikeCache
    pub tasks : List (ServerTask I)
    pub ended : Option IoError

  -- `run_server` under `?`: its error, where there is one, is that of the process.
  unfoldable pub run_with : Run → ServerConfig (v1 K) → L.Listener → Running
  run_with options scfg listener =
      let (strike, tasks, ended) = run_server I (v1 K) scfg (L.accepts listener) in
      record {
        config = scfg;
        target = options.target;
        strike = strike;
        tasks = tasks;
        ended = ended;
      }

  unfoldable pub run_command : Run → List ℕ → Io CliError F.State Running
  run_command options kem_seed = do
    scfg ← load_server_config F K options.args kem_seed
    listener ← lift (bind_listener I L options.listen)
    lift (ok (run_with options scfg listener))

  -- What the process has done: printed lines, or served.
  pub data Done : Type 0 where
    printed : List (List ℕ) → Done
    served : Running → Done

  -- The configuration was loaded, and the server accepts from the address that it was given.
  pub record Serves (options : Run) (kem_seed : List ℕ) (running : Running) (s s' : F.State)
      : Type 0 where
    pub loads : load_server_config F K options.args kem_seed s ≡ (ok running.config, s')
    pub listener : L.Listener
    pub binds : L.bind options.listen ≡ ok listener
    pub runs : running ≡ run_with options running.config listener

  run_command-Serves :
      (options : Run) (kem_seed : List ℕ) (running : Running) (s s' : F.State)
      → run_command options kem_seed s ≡ (ok running, s')
      → Serves options kem_seed running s s'
  unfolding run_command run_with bind_listener
  run_command-Serves options kem_seed running s s' h =
      let (scfg, loaded, h1) = bind-ok (load_server_config F K options.args kem_seed) _ s h in
      let (listener, bound, h2) = bind-ok (lift (bind_listener I L options.listen)) _ _ h1 in
      let is : run_with options scfg listener ≡ running = ok_injective (ap (λ x. x.0) h2) in
      let same : scfg ≡ running.config = ap (λ x. x.config) is in
      record {
        loads = λ i. ((loaded ∙ ap (λ x. ok x) same) i, ap (λ x. x.1) h2 i);
        listener = listener;
        binds = map_err-eq-ok _ _ bound;
        runs = sym is ∙ ap (λ c. run_with options c listener) same;
      }

  printed_injective : {xs ys : List (List ℕ)} → ◌≡◌ {A = Done} (printed xs) (printed ys) → xs ≡ ys
  printed_injective h = cc h

  served_injective : {x y : Running} → ◌≡◌ {A = Done} (served x) (served y) → x ≡ y
  served_injective h = cc h

  module _ (R : Rcgen) (kem_seed sign_seed cert_seed : List ℕ) where
    unfoldable pub dispatch : Commands → Io CliError F.State Done
    dispatch (gen_key out) = do
      lines ← Ortd.gen_key F K out kem_seed sign_seed
      lift (ok (printed lines))
    dispatch (gen_cert out) = do
      lines ← Ortd.gen_cert F K R out kem_seed sign_seed cert_seed
      lift (ok (printed lines))
    dispatch (run options) = do running ← run_command options kem_seed; lift (ok (served running))

    parsed : Option Commands → Io CliError F.State (Option Done)
    parsed none = lift (ok none)
    parsed (some command) = do d ← dispatch command; lift (ok (some d))

    module _ (OsString : Type 0) (to_string_lossy : OsString → String) (from : String → OsString)
        (parse_from : List OsString → Option Commands) where
      unfoldable pub main : List OsString → Io CliError F.State (Option Done)
      unfolding parsed
      main argv = parsed (parse_from (default_run OsString to_string_lossy from argv))

    -- A command that succeeds has done what it is for.
    pub dispatch-gen_cert :
        (out : F.FilePath) (lines : List (List ℕ)) (s s' : F.State)
        → dispatch (gen_cert out) s ≡ (ok (printed lines), s')
        → Ortd.gen_cert F K R out kem_seed sign_seed cert_seed s ≡ (ok lines, s')
    unfolding dispatch
    dispatch-gen_cert out lines s s' h =
        let (lines', made, h1) =
          bind-ok (Ortd.gen_cert F K R out kem_seed sign_seed cert_seed) _ s h in
        let same : lines' ≡ lines = printed_injective (ok_injective (ap (λ x. x.0) h1)) in
        λ i. ((made ∙ ap (λ x. ok x) same) i, ap (λ x. x.1) h1 i)

    pub dispatch-run :
        (options : Run) (running : Running) (s s' : F.State)
        → dispatch (run options) s ≡ (ok (served running), s')
        → Serves options kem_seed running s s'
    unfolding dispatch
    dispatch-run options running s s' h =
        let (started, made, h1) = bind-ok (run_command options kem_seed) _ s h in
        let same : started ≡ running = served_injective (ok_injective (ap (λ x. x.0) h1)) in
        run_command-Serves options kem_seed running s s'
          (λ i. ((made ∙ ap (λ x. ok x) same) i, ap (λ x. x.1) h1 i))
