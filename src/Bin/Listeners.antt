-- ===== src/Bin/Listeners.antt =====
-- The listening socket of the crate `tokio`, as the binaries bind it and crates/ort-net/src/run.rs
-- accepts from it.
use Prim.Native.String.{String, ◌++◌}
use ort.Prelude.{List, Result, map_err}
use ort.Net.Error.{IoResult}
use ort.Net.Stream.{Stream}
use ort.Net.Session.{Socket}
use ort.Net.Run.{IpAddr}
use ort.Bin.Cli.{CliError, io, context}

pub record Listeners (I : Stream) : Type 1 where
  pub SocketAddr : Type 0
  pub Listener : Type 0
  pub display : SocketAddr → String
  pub bind : SocketAddr → IoResult Listener
  -- what `accept` answers, one time after the other: the socket and the address of its peer
  pub accepts : Listener → List (IoResult (Socket I × IpAddr))
  -- what connecting to an address answers, one time after the other, and then `local_addr`
  pub connects : SocketAddr → List (IoResult (Socket I × IoResult IpAddr))

module _ (I : Stream) (L : Listeners I) where
  -- `TcpListener::bind(listen).await.with_context(|| format!("binding {}", listen))`
  unfoldable pub bind_listener : L.SocketAddr → Result CliError L.Listener
  bind_listener listen =
      map_err (λ e. context ("binding " ++ L.display listen) (io e)) (L.bind listen)
