-- ===== src/Bin/Ortd.antt =====
-- crates/ortd/src/main.rs: the keys, the certificate and the configuration of the server. Random
-- bytes are arguments, a command answers with the lines that it prints last, and the crates `rcgen`
-- and `clap` are parameters.
pub mod Issuer
pub mod Keys
pub mod Certificate
pub mod Main
use Prim.Native.String.{String, ◌++◌}
use ort.Prelude.{
  ℕ, List, [], ◌∷◌, Bool, true, false, Option, none, some, Result, ok, map_err, if◌then◌else◌, ◌||◌,
}
use ort.Prelude as P
use ort.Core.Error
use ort.Core.Handshake.Server.{ServerConfig}
use ort.Core.Suite.V1.{
  Crates, v1, kem_generate, kem_secret_from_bytes, kem_secret_to_bytes, kem_public, sig_generate,
  sig_secret_to_bytes,
}
use ort.Net.Io.{Io, ◌>>=◌, ◌>>◌, lift}
use ort.Net.Cert.{str_eq}
use ort.Bin.Files.{Files}
use ort.Bin.Cli.{CliError, context, core, io, rcgen, codes, hex, with_context, read_key, write_key}
use ort.Bin.Ortd.Issuer.{Rcgen, serverpk_oid_u64}

abbrev pub kem_key_file : String
kem_key_file = "server_kem.key"

abbrev pub sign_key_file : String
sign_key_file = "server_sign.key"

abbrev pub cert_file : String
cert_file = "cert.der"

abbrev pub cert_signing_file : String
cert_signing_file = "cert_signing.key"

module _ (F : Files) (K : Crates) where
  -- `RunArgs`, less the addresses
  pub record RunArgs : Type 0 where
    pub cert : Option F.FilePath
    pub window_ms : ℕ
    pub skew_ms : ℕ

  unfoldable pub gen_key : F.FilePath → List ℕ → List ℕ → Io CliError F.State (List (List ℕ))
  gen_key out kem_seed sign_seed =
      let kem = kem_generate K kem_seed in
      let sign = sig_generate K sign_seed in
      let server_pk = kem_public K kem in
      do
        write_key F (F.join out kem_key_file) (kem_secret_to_bytes K kem)
        write_key F (F.join out sign_key_file) (sig_secret_to_bytes K sign)
        lift (
            ok (
              codes ("generated server keys in " ++ F.display out)
              ∷ P.◌++◌ (codes "server_pk (pin this on clients): ") (hex server_pk)
              ∷ []))

  decode_kem : List ℕ → Result CliError K.kem.DecapsulationKey
  decode_kem seed =
      map_err (λ e. context "decode server KEM key" (core e)) (kem_secret_from_bytes K seed)

  load_kem : F.FilePath → Io CliError F.State K.kem.DecapsulationKey
  unfolding decode_kem
  load_kem path = do seed ← read_key F path; lift (decode_kem seed)

  make_kem : F.FilePath → List ℕ → List ℕ → Io CliError F.State K.kem.DecapsulationKey
  make_kem dir kem_seed sign_seed =
      let kem = kem_generate K kem_seed in
      let sign = sig_generate K sign_seed in
      do
        write_key F (F.join dir kem_key_file) (kem_secret_to_bytes K kem)
        write_key F (F.join dir sign_key_file) (sig_secret_to_bytes K sign)
        lift (ok kem)

  unfoldable pub load_or_make_kem :
      F.FilePath → List ℕ → List ℕ → Io CliError F.State K.kem.DecapsulationKey
  unfolding load_kem make_kem
  load_or_make_kem dir kem_seed sign_seed s =
      let path = F.join dir kem_key_file in
      if F.exists path s then load_kem path s else make_kem dir kem_seed sign_seed s

  of_rcgen : {A : Type 0} → String → Result String A → Io CliError F.State A
  of_rcgen what r = lift (map_err (λ e. context what (rcgen e)) r)

  unfoldable pub gen_cert :
      (R : Rcgen) → F.FilePath → List ℕ → List ℕ → List ℕ → Io CliError F.State (List (List ℕ))
  unfolding of_rcgen
  gen_cert R out kem_seed sign_seed cert_seed = do
    kem ← load_or_make_kem out kem_seed sign_seed
    key_pair ← of_rcgen "generate cert key" (R.generate_for cert_seed)
    params ← of_rcgen "cert params" (R.params_new ("ortd" ∷ []))
    cert ←
        of_rcgen "self-sign cert"
          (R.self_signed (R.push_extension serverpk_oid_u64 (kem_public K kem) params) key_pair)
    with_context F "write cert.der" (F.write (F.join out cert_file) cert)
    write_key F (F.join out cert_signing_file) (R.serialize_der key_pair)
    lift (
        ok (
          codes ("wrote certificate to " ++ F.display (F.join out cert_file))
          ∷ P.◌++◌ (codes "server_pk (bound in cert): ") (hex (kem_public K kem))
          ∷ []))

  -- The key of the directory, or a new one.
  server_kem : Option F.FilePath → List ℕ → Io CliError F.State K.kem.DecapsulationKey
  unfolding decode_kem
  server_kem none kem_seed s = (ok (kem_generate K kem_seed), s)
  server_kem (some dir) kem_seed s =
      let (r, s') = read_key F (F.join dir kem_key_file) s in
      (do
        seed ← lift (map_err (context "load server KEM key (run `ortd gen-key` first)") r)
        lift (decode_kem seed))
        s'

  -- The certificate of the directory, if there is one.
  server_certificate : Option F.FilePath → Io CliError F.State (List ℕ)
  server_certificate none s = (ok [], s)
  server_certificate (some dir) s =
      let path = F.join dir cert_file in
      if F.exists path s
      then with_context F "reading certificate" (λ s. (F.read path s, s)) s
      else (ok [], s)

  unfoldable pub load_server_config : RunArgs → List ℕ → Io CliError F.State (ServerConfig (v1 K))
  unfolding server_kem server_certificate
  load_server_config args kem_seed = do
    kem_secret ← server_kem args.cert kem_seed
    certificate ← server_certificate args.cert
    lift (
        ok (record {
          kem_secret = kem_secret;
          server_pk = kem_public K kem_secret;
          certificate = certificate;
          window_ms = args.window_ms;
          skew_ms = args.skew_ms;
        }))

-- `known` of `main`
known : String → Bool
known a =
    str_eq a "run"
    || str_eq a "gen-key"
    || str_eq a "gen-cert"
    || str_eq a "help"
    || str_eq a "-h"
    || str_eq a "--help"
    || str_eq a "-V"
    || str_eq a "--version"

-- `OsString`, with `to_string_lossy` and `OsString::from`
module _ (OsString : Type 0) (to_string_lossy : OsString → String) (from : String → OsString) where
  -- `main` up to the parser of `clap`.
  unfoldable pub default_run : List OsString → List OsString
  unfolding known
  default_run (program ∷ a ∷ rest) =
      if known (to_string_lossy a) then program ∷ a ∷ rest else program ∷ from "run" ∷ a ∷ rest
  default_run argv = argv
