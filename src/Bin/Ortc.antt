-- ===== src/Bin/Ortc.antt =====
-- crates/ortc/src/main.rs: the client's key and the choice of its verifier. Random bytes are
-- arguments, and what is logged is left out.
pub mod Identity
pub mod Main
use ort.Prelude.{ℕ, List, Bool, Option, none, some, Result, ok, map_err, if◌then◌else◌}
use ort.Core.Handshake.Client.{ClientConfig}
use ort.Core.Suite.V1.{
  Crates, v1, sig_generate, sig_public, sig_secret_from_bytes, sig_secret_to_bytes,
}
use ort.Net.Io.{Io, ◌>>=◌, ◌>>◌, lift}
use ort.Net.Cert.{ServerVerifier, trust_on_first_use, strict}
use ort.Bin.Files.{Files}
use ort.Bin.Cli.{CliError, context, core, with_context, read_key, write_key}

module _ (F : Files) where
  -- `Cli`, less the addresses
  pub record Args : Type 0 where
    pub no_strict_cert : Bool
    pub client_key : Option F.FilePath
    pub ca : Option F.FilePath
    pub force_1rtt : Bool

  -- `args.ca.map(std::fs::read).transpose()`
  read_ca : Option F.FilePath → Io CliError F.State (Option (List ℕ))
  read_ca none s = (ok none, s)
  read_ca (some path) s =
      (do
        bytes ← with_context F "reading CA certificate" (λ s. (F.read path s, s))
        lift (ok (some bytes)))
        s

  -- The first part of `main`.
  unfoldable pub choose_verifier : Args → Io CliError F.State ServerVerifier
  unfolding read_ca
  choose_verifier args =
      if args.no_strict_cert
      then lift (ok trust_on_first_use)
      else (do ca ← read_ca args.ca; lift (ok (strict ca)))

  module _ (K : Crates) where
    load_sig : F.FilePath → Io CliError F.State K.dsa.SigningKey
    load_sig path = do
      seed ← read_key F path
      lift (
          map_err (λ e. context "decode client signing key" (core e))
            (sig_secret_from_bytes K seed))

    make_sig : F.FilePath → List ℕ → Io CliError F.State K.dsa.SigningKey
    make_sig path sig_seed =
        let s = sig_generate K sig_seed in
        do write_key F path (sig_secret_to_bytes K s); lift (ok s)

    client_sig : Option F.FilePath → List ℕ → Io CliError F.State K.dsa.SigningKey
    unfolding load_sig make_sig
    client_sig none sig_seed s = (ok (sig_generate K sig_seed), s)
    client_sig (some path) sig_seed s =
        if F.exists path s then load_sig path s else make_sig path sig_seed s

    unfoldable pub load_client_config : Args → List ℕ → Io CliError F.State (ClientConfig (v1 K))
    unfolding client_sig
    load_client_config args sig_seed = do
      sig_secret ← client_sig args.client_key sig_seed
      lift (ok (record { sig_secret = sig_secret; client_pk = sig_public K sig_secret }))
