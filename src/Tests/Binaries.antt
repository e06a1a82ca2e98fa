-- ===== src/Tests/Binaries.antt =====
-- The binaries on a file system in memory.
use Prim.Native.String
use Prim.Native.String.{String}
use ort.Prelude.{
  ℕ, ◌≡◌, ◌≢◌, refl, sym, ap, ◌∙◌, List, [], ◌∷◌, ◌++◌, Bool, true, false, none, some, ok, err,
  arith, bytes_eq, bytes_eq_refl, ok_injective, ne→bytes_eq, if◌then◌else◌,
}
use mathlib.Core.Path.{subst}
use native.Mathlib.Decide.{ℕ_discrete}
use ort.Core.Handshake.Client.{ClientConfig}
use ort.Core.Handshake.Server.{ServerConfig}
use ort.Core.Suite.V1.{
  v1, sig_generate, kem_generate, kem_secret_from_bytes, kem_public, sig_public,
  sig_secret_to_bytes,
}
use ort.Net.Cert.{strict, verify, str_eq}
use ort.Net.Error.{IoResult, other}
use ort.Bin.Files.{Files, IsFileSystem}
use ort.Bin.Cli.{codes, hex, read_key, write_key}
use ort.Bin.Ortd.{RunArgs, gen_key, gen_cert, load_or_make_kem, load_server_config, default_run}
use ort.Bin.Ortd.Issuer.{Rcgen, IsRcgen, IsSelfSigned, dotted, serverpk_oid_u64}
use ort.Bin.Ortd.Keys.{IsApart, config_of, Holds-load_server_config}
use ort.Bin.Ortd.Certificate.{load_server_config-gen_cert, gen_key-stale}
use ort.Bin.Ortc.{Args, load_client_config}
use ort.Bin.Ortc.Identity.{load_client_config_again}
use ort.Tests.Toy.{toy_x509}
use ort.Tests.Arrays.{zeros, array, decided}
use ort.Tests.Crates.{toy_crates, documented}

abbrev pub Disk : Type 0
Disk = List (List ℕ × List ℕ)

abbrev pub find : List ℕ → Disk → IoResult (List ℕ)
find p [] = err (other 2)
find p ((q, bs) ∷ s) = if bytes_eq q p then ok bs else find p s

abbrev pub is_found : IoResult (List ℕ) → Bool
is_found (ok _) = true
is_found (err _) = false

-- The newest file of a name is the one that is read.
abbrev pub memory : Files
memory = record {
  State = Disk;
  FilePath = List ℕ;
  display = λ p. "path";
  parent = λ p. some [];
  is_empty = λ p. bytes_eq p [];
  join = λ d name. d ++ codes name;
  exists = λ p s. is_found (find p s);
  read = find;
  write = λ p bs s. (ok tt, (p, bs) ∷ s);
  create_dir_all = λ d s. (ok tt, s);
  set_permissions = λ mode p s. (ok tt, s);
}

pub memory-IsFileSystem : IsFileSystem memory
memory-IsFileSystem = record {
  read-write = λ p bs s h. rw bytes_eq_refl;
  read-write_other = λ p q bs bs' s differs h. rw (ne→bytes_eq p q differs) h;
  read-create_dir_all = λ d q bs' s h. h;
  read-set_permissions = λ p q bs' s h. h;
  exists-read = λ q bs' s h. rw h;
}

pub memory-IsApart : IsApart memory []
memory-IsApart = record {
  sign_kem = λ e. absurd (grind (arith, e));
  cert_kem = λ e. absurd (grind (arith, e));
  sign_cert = λ e. absurd (grind (arith, e));
  cert_signing_kem = λ e. absurd (grind (arith, e));
  cert_signing_cert = λ e. absurd (grind (arith, e));
}

prints_hex : hex (0 ∷ 171 ∷ 255 ∷ []) ≡ codes "00abff"
unfolding hex
prints_hex = refl

-- Without a subcommand `run` is the subcommand.
bare_options :
    default_run String (λ s. s) (λ s. s) ("ortd" ∷ "--listen" ∷ "::1" ∷ [])
    ≡ "ortd" ∷ "run" ∷ "--listen" ∷ "::1" ∷ []
unfolding default_run str_eq
bare_options = refl

-- A word that is no option counts as one.
misspelt :
    default_run String (λ s. s) (λ s. s) ("ortd" ∷ "gen-kee" ∷ []) ≡ "ortd" ∷ "run" ∷ "gen-kee" ∷ []
unfolding default_run str_eq
misspelt = refl

abbrev pub seed : ℕ → List ℕ
seed b = b ∷ zeros 63

abbrev pub args : RunArgs memory toy_crates
args = record { cert = some []; window_ms = 2000; skew_ms = 1000 }

unfoldable running : ℕ → ℕ
unfolding gen_key write_key read_key bytes_eq load_or_make_kem gen_cert load_server_config
running n = n

abbrev generated : Disk
generated = (gen_key memory toy_crates [] (seed 1) (seed 2) []).1

abbrev generated_lines : List (List ℕ)
generated_lines =
    codes (String.◌++◌ "generated server keys in " "path")
    ∷ (codes "server_pk (pin this on clients): "
        ++ hex (kem_public toy_crates (kem_generate toy_crates (seed 1))))
    ∷ []

-- The certificate is one byte and the key.
abbrev pub toy_rcgen : Rcgen
toy_rcgen = record {
  KeyPair = List ℕ;
  CertificateParams = List ℕ;
  generate_for = λ random. ok random;
  params_new = λ names. ok [];
  push_extension = λ oid content params. content;
  self_signed = λ params key_pair. ok (1 ∷ params);
  serialize_der = λ key_pair. key_pair;
}

pub toy_rcgen-IsRcgen : (now : ℕ) → IsRcgen toy_rcgen toy_x509 now
unfolding dotted
toy_rcgen-IsRcgen now = record {
  self_signed-IsSelfSigned = λ params key_pair content der made signed.
      subst (IsSelfSigned toy_x509 now serverpk_oid_u64 content) (ok_injective signed) (record {
        subject = 1 ∷ content;
        rest = [];
        before = [];
        after = [];
        present = λ e. cc e;
        parses = refl;
        current = refl;
        signed = rw bytes_eq_refl;
        lists = refl;
        others = tt;
      });
}

abbrev pub certified : Disk
certified = (gen_cert memory toy_crates toy_rcgen [] (seed 0) (seed 2) (seed 3) []).1

abbrev pub certified_lines : List (List ℕ)
certified_lines =
    codes (String.◌++◌ "wrote certificate to " "path")
    ∷ (codes "server_pk (bound in cert): "
        ++ hex (kem_public toy_crates (kem_generate toy_crates (seed 0))))
    ∷ []

pub certifies :
    gen_cert memory toy_crates toy_rcgen [] (seed 0) (seed 2) (seed 3) []
    ≡ (ok certified_lines, certified)
unfolding running
certifies = refl

load_server_config-gen_cert_example :
    (cfg : ServerConfig (v1 toy_crates)) × (load_server_config memory toy_crates args
        (seed 9)
        certified
      ≡ (ok cfg, certified))
    × (verify toy_x509 (strict none) 7 cfg.server_pk cfg.certificate ≡ ok tt)
    × (cfg.server_pk ≡ kem_public toy_crates cfg.kem_secret)
    × (certified_lines
        ≡ codes (String.◌++◌ "wrote certificate to " "path")
          ∷ (codes "server_pk (bound in cert): " ++ hex cfg.server_pk)
          ∷ [])
load_server_config-gen_cert_example =
    load_server_config-gen_cert memory memory-IsFileSystem toy_crates documented toy_rcgen toy_x509
      7 (toy_rcgen-IsRcgen 7) [] memory-IsApart args (seed 0) (seed 2) (seed 3) (seed 9)
      certified_lines [] certified refl certifies

-- The client's key file.
abbrev pub client_args : Args memory
client_args = record {
  no_strict_cert = false;
  client_key = some (1 ∷ []);
  ca = none;
  force_1rtt = false;
}

abbrev pub identity : ClientConfig (v1 toy_crates)
identity = record {
  sig_secret = sig_generate toy_crates (seed 4);
  client_pk = sig_public toy_crates (sig_generate toy_crates (seed 4));
}

abbrev pub identified : Disk
identified = (load_client_config memory toy_crates client_args (seed 4) []).1

pub identifies :
    load_client_config memory toy_crates client_args (seed 4) [] ≡ (ok identity, identified)
unfolding running load_client_config
identifies = refl

load_client_config_again_example :
    (load_client_config memory toy_crates client_args (seed 8) identified
      ≡ (ok identity, identified))
    × (identity.client_pk ≡ sig_public toy_crates identity.sig_secret)
    × (memory.read (1 ∷ []) identified ≡ ok (sig_secret_to_bytes toy_crates identity.sig_secret))
load_client_config_again_example =
    load_client_config_again memory memory-IsFileSystem toy_crates documented (1 ∷ []) client_args
      (seed 4) (seed 8) [] identified identity refl identifies

-- A new key beside the old certificate.
abbrev pub before : ServerConfig (v1 toy_crates)
before =
    config_of memory memory-IsFileSystem toy_crates documented [] memory-IsApart args
      (kem_generate toy_crates (seed 0))
      (1 ∷ kem_public toy_crates (kem_generate toy_crates (seed 0)))

pub loads : load_server_config memory toy_crates args (seed 9) certified ≡ (ok before, certified)
unfolding running
loads =
    Holds-load_server_config memory memory-IsFileSystem toy_crates documented [] memory-IsApart args
      (kem_generate toy_crates (seed 0))
      (1 ∷ kem_public toy_crates (kem_generate toy_crates (seed 0))) (seed 9) certified refl refl
      refl

abbrev first : List ℕ → ℕ
first [] = 0
first (b ∷ bs) = b

abbrev overwritten : Disk
overwritten = (gen_key memory toy_crates [] (seed 1) (seed 2) certified).1

overwrites :
    gen_key memory toy_crates [] (seed 1) (seed 2) certified ≡ (ok generated_lines, overwritten)
unfolding running
overwrites = refl

begins : (b : ℕ) → first (kem_public toy_crates (kem_generate toy_crates (seed b))) ≡ b
unfolding kem_public kem_generate kem_secret_from_bytes array decided zeros ℕ_discrete
begins b = refl

gen_key-stale_example :
    (cfg' : ServerConfig (v1 toy_crates)) × (load_server_config memory toy_crates args
        (seed 9)
        overwritten
      ≡ (ok cfg', overwritten))
    × (cfg'.kem_secret ≡ kem_generate toy_crates (seed 1))
    × (cfg'.certificate ≡ 1 ∷ kem_public toy_crates (kem_generate toy_crates (seed 0)))
    × (verify toy_x509 (strict none) 7 cfg'.server_pk cfg'.certificate ≢ ok tt)
gen_key-stale_example =
    gen_key-stale memory memory-IsFileSystem toy_crates documented toy_rcgen toy_x509 7
      (toy_rcgen-IsRcgen 7) [] memory-IsApart args (seed 0) (seed 2) (seed 3) (seed 1) (seed 2)
      (seed 9) certified_lines generated_lines [] certified overwritten before refl certifies loads
      overwrites (λ e. absurd (omega (arith, sym (begins 1) ∙ ap first e ∙ begins 0)))
