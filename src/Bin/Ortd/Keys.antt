-- ===== src/Bin/Ortd/Keys.antt =====
-- The server's key in its directory.
use Prim.Native.String
use ort.Prelude.{
  ℕ, ◌≡◌, ◌≢◌, refl, sym, ap, ◌∙◌, List, [], ◌∷◌, ◌++◌, false, some, ok, Bool-cases, inl, inr,
  map_err-eq-ok, ok_injective,
}
use mathlib.Core.Path.{subst}
use ort.Core.Handshake.Server.{ServerConfig}
use ort.Core.Suite.V1.{Crates, v1, kem_generate, kem_secret_to_bytes, kem_public}
use ort.Core.Suite.V1.Documented.{IsDocumented}
use ort.Core.Suite.V1.Correct.{kem_seed_iff}
use ort.Net.Io.{bind-ok}
use ort.Bin.Files.{Files, IsFileSystem}
use ort.Bin.Cli.{codes, hex, read_key, write_key}
use ort.Bin.Cli.Keys.{write_key-read, write_key-keeps}
use ort.Bin.Ortd.{
  RunArgs, kem_key_file, sign_key_file, cert_file, cert_signing_file, gen_key, decode_kem, load_kem,
  make_kem, load_or_make_kem, server_kem, server_certificate, load_server_config,
}

-- The files of a directory are different ones.
pub record IsApart (F : Files) (dir : F.FilePath) : Type 0 where
  pub sign_kem : F.join dir sign_key_file ≢ F.join dir kem_key_file
  pub cert_kem : F.join dir cert_file ≢ F.join dir kem_key_file
  pub sign_cert : F.join dir sign_key_file ≢ F.join dir cert_file
  pub cert_signing_kem : F.join dir cert_signing_file ≢ F.join dir kem_key_file
  pub cert_signing_cert : F.join dir cert_signing_file ≢ F.join dir cert_file

module _ (F : Files) (fs : IsFileSystem F) (K : Crates) (d : IsDocumented K) (dir : F.FilePath)
    (apart : IsApart F dir) where
  -- The directory's key.
  abbrev pub Holds : K.kem.DecapsulationKey → F.State → Type 0
  Holds kem s = F.read (F.join dir kem_key_file) s ≡ ok (kem_secret_to_bytes K kem)

  decode_kem-Holds :
      (kem : K.kem.DecapsulationKey) → decode_kem F K (kem_secret_to_bytes K kem) ≡ ok kem
  unfolding decode_kem
  decode_kem-Holds kem = rw ((kem_seed_iff K d kem (kem_secret_to_bytes K kem)).1 refl)

  Holds-load_kem :
      (kem : K.kem.DecapsulationKey) (s : F.State)
      → Holds kem s
      → load_kem F K (F.join dir kem_key_file) s ≡ (ok kem, s)
  unfolding load_kem read_key
  Holds-load_kem kem s h = rw (h, decode_kem-Holds kem)

  Holds-server_kem :
      (kem : K.kem.DecapsulationKey) (seed : List ℕ) (s : F.State)
      → Holds kem s
      → server_kem F K (some dir) seed s ≡ (ok kem, s)
  unfolding server_kem read_key
  Holds-server_kem kem seed s h = rw (h, decode_kem-Holds kem)

  load_kem-Holds :
      (kem : K.kem.DecapsulationKey) (s s' : F.State)
      → load_kem F K (F.join dir kem_key_file) s ≡ (ok kem, s')
      → Holds kem s'
  unfolding load_kem read_key decode_kem
  load_kem-Holds kem s s' h =
      let (seed, got, h1) = bind-ok (read_key F (F.join dir kem_key_file)) _ s h in
      let decoded = map_err-eq-ok _ _ (ap (λ x. x.0) h1) in
      subst (λ x. F.read (F.join dir kem_key_file) x ≡ ok (kem_secret_to_bytes K kem))
        (ap (λ x. x.1) h1)
        (map_err-eq-ok _ _ got ∙ ap ok (sym ((kem_seed_iff K d kem seed).0 decoded)))

  make_kem-Holds :
      (kem : K.kem.DecapsulationKey) (kem_seed sign_seed : List ℕ) (s s' : F.State)
      → make_kem F K dir kem_seed sign_seed s ≡ (ok kem, s')
      → Holds kem s'
  unfolding make_kem
  make_kem-Holds kem kem_seed sign_seed s s' h =
      let (_, wrote, h1) = bind-ok (write_key F (F.join dir kem_key_file) _) _ s h in
      let (_, wrote', h2) = bind-ok (write_key F (F.join dir sign_key_file) _) _ _ h1 in
      let kem_is : kem_generate K kem_seed ≡ kem = ok_injective (ap (λ x. x.0) h2) in
      let stays =
        write_key-keeps F fs (F.join dir sign_key_file) (F.join dir kem_key_file) _ _ _ wrote'
          apart.sign_kem (write_key-read F fs (F.join dir kem_key_file) _ s wrote) in
      subst (Holds kem) (ap (λ x. x.1) h2) (stays ∙ ap (λ x. ok (kem_secret_to_bytes K x)) kem_is)

  -- The key that it returns is in the directory.
  pub load_or_make_kem-Holds :
      (kem : K.kem.DecapsulationKey) (kem_seed sign_seed : List ℕ) (s s' : F.State)
      → load_or_make_kem F K dir kem_seed sign_seed s ≡ (ok kem, s')
      → Holds kem s'
  unfolding load_or_make_kem
  load_or_make_kem-Holds kem kem_seed sign_seed s s' h =
      elim (Bool-cases (F.exists (F.join dir kem_key_file) s)) [
        | inl e ↦ load_kem-Holds kem s s' (rw e at h)
        | inr e ↦ make_kem-Holds kem kem_seed sign_seed s s' (rw e at h)
      ]

  Holds-load_or_make_kem :
      (kem : K.kem.DecapsulationKey) (kem_seed sign_seed : List ℕ) (s : F.State)
      → Holds kem s
      → load_or_make_kem F K dir kem_seed sign_seed s ≡ (ok kem, s)
  unfolding load_or_make_kem
  Holds-load_or_make_kem kem kem_seed sign_seed s h =
      rw (fs.exists-read _ _ s h) (Holds-load_kem kem s h)

  -- Once `ortd gen-cert` has a key for a directory, made or found there, it finds that key again,
  -- whatever random bytes it draws, and leaves the files alone. The directory's files are different
  -- ones, and no other program writes them.
  pub load_or_make_kem_idempotent :
      (kem : K.kem.DecapsulationKey) (kem_seed sign_seed kem_seed' sign_seed' : List ℕ)
      (s s' : F.State)
      → load_or_make_kem F K dir kem_seed sign_seed s ≡ (ok kem, s')
      → load_or_make_kem F K dir kem_seed' sign_seed' s' ≡ (ok kem, s')
  load_or_make_kem_idempotent kem kem_seed sign_seed kem_seed' sign_seed' s s' h =
      Holds-load_or_make_kem kem kem_seed' sign_seed' s'
        (load_or_make_kem-Holds kem kem_seed sign_seed s s' h)

  -- The configuration with a key, for a certificate.
  abbrev pub config_of : RunArgs F K → K.kem.DecapsulationKey → List ℕ → ServerConfig (v1 K)
  config_of args kem certificate = record {
    kem_secret = kem;
    server_pk = kem_public K kem;
    certificate = certificate;
    window_ms = args.window_ms;
    skew_ms = args.skew_ms;
  }

  pub Holds-load_server_config :
      (args : RunArgs F K) (kem : K.kem.DecapsulationKey) (certificate seed : List ℕ) (s : F.State)
      → args.cert ≡ some dir
      → Holds kem s
      → F.read (F.join dir cert_file) s ≡ ok certificate
      → load_server_config F K args seed s ≡ (ok (config_of args kem certificate), s)
  unfolding load_server_config server_certificate
  Holds-load_server_config args kem certificate seed s given holds found =
      rw (given, Holds-server_kem kem seed s holds, fs.exists-read _ _ s found, found)

  -- What `gen_key` leaves when it succeeds: its key, and the certificate that was there.
  pub record Generated (kem : K.kem.DecapsulationKey) (lines : List (List ℕ)) (s s' : F.State)
      : Type 0 where
    pub holds : Holds kem s'
    pub keeps :
        (bs : List ℕ)
        → F.read (F.join dir cert_file) s ≡ ok bs
        → F.read (F.join dir cert_file) s' ≡ ok bs
    pub prints :
        lines
        ≡ codes (String.◌++◌ "generated server keys in " (F.display dir))
          ∷ (codes "server_pk (pin this on clients): " ++ hex (kem_public K kem))
          ∷ []

  pub gen_key-Generated :
      (kem_seed sign_seed : List ℕ) (lines : List (List ℕ)) (s s' : F.State)
      → gen_key F K dir kem_seed sign_seed s ≡ (ok lines, s')
      → Generated (kem_generate K kem_seed) lines s s'
  unfolding gen_key
  gen_key-Generated kem_seed sign_seed lines s s' h =
      let k = F.join dir kem_key_file in
      let g = F.join dir sign_key_file in
      let c = F.join dir cert_file in
      let (_, wrote, h1) = bind-ok (write_key F k _) _ s h in
      let (_, wrote', h2) = bind-ok (write_key F g _) _ _ h1 in
      let left = ap (λ x. x.1) h2 in
      record {
        holds = subst (Holds (kem_generate K kem_seed)) left (
            write_key-keeps F fs g k _ _ _ wrote' apart.sign_kem (write_key-read F fs k _ s wrote));
        keeps = λ bs there.
            subst (λ x. F.read c x ≡ ok bs) left
              (write_key-keeps F fs g c _ bs _ wrote' apart.sign_cert
                (write_key-keeps F fs k c _ bs s wrote (λ e. apart.cert_kem (sym e)) there));
        prints = ok_injective (sym (ap (λ x. x.0) h2));
      }

  -- After `ortd gen-key` in a directory without a certificate the server that is started with this
  -- directory has the generated key, with the public key that was printed, and no certificate,
  -- whatever random bytes it draws. The crates are as documented, the directory's files are
  -- different ones, and no other program writes them.
  pub load_server_config-gen_key :
      (args : RunArgs F K) (kem_seed sign_seed seed : List ℕ) (lines : List (List ℕ))
      (s s' : F.State)
      → args.cert ≡ some dir
      → gen_key F K dir kem_seed sign_seed s ≡ (ok lines, s')
      → F.exists (F.join dir cert_file) s' ≡ false
      → (cfg : ServerConfig (v1 K)) × (load_server_config F K args seed s' ≡ (ok cfg, s'))
        × (cfg ≡ config_of args (kem_generate K kem_seed) [])
        × (lines
            ≡ codes (String.◌++◌ "generated server keys in " (F.display dir))
              ∷ (codes "server_pk (pin this on clients): " ++ hex cfg.server_pk)
              ∷ [])
  unfolding load_server_config server_certificate
  load_server_config-gen_key args kem_seed sign_seed seed lines s s' given h missing =
      let made = gen_key-Generated kem_seed sign_seed lines s s' h in
      (
        config_of args (kem_generate K kem_seed) [],
        rw (given, Holds-server_kem _ seed s' made.holds, missing),
        refl,
        made.prints,
      )
