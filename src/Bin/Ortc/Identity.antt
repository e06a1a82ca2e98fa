-- ===== src/Bin/Ortc/Identity.antt =====
-- The client's key in its file.
use ort.Prelude.{
  ℕ, none, false, ◌≡◌, refl, sym, ap, ◌∙◌, List, some, ok, Bool-cases, inl, inr, map_err-eq-ok,
  ok_injective,
}
use mathlib.Core.Path.{subst}
use ort.Core.Handshake.Client.{ClientConfig}
use ort.Core.Suite.V1.{Crates, v1, sig_generate, sig_public, sig_secret_to_bytes}
use ort.Core.Suite.V1.Documented.{IsDocumented}
use ort.Core.Suite.V1.Correct.{sig_seed_iff}
use ort.Net.Io.{bind-ok}
use ort.Bin.Files.{Files, IsFileSystem}
use ort.Bin.Cli.{read_key, write_key}
use ort.Bin.Cli.Keys.{write_key-read}
use ort.Net.Cert.{ServerVerifier, strict}
use ort.Bin.Ortc.{choose_verifier, Args, load_sig, make_sig, client_sig, load_client_config}

module _ (F : Files) (fs : IsFileSystem F) (K : Crates) (d : IsDocumented K)
    (path : F.FilePath) where
  abbrev Holds : K.dsa.SigningKey → F.State → Type 0
  Holds key s = F.read path s ≡ ok (sig_secret_to_bytes K key)

  load_sig-Holds :
      (key : K.dsa.SigningKey) (s s' : F.State) → load_sig F K path s ≡ (ok key, s') → Holds key s'
  unfolding load_sig read_key
  load_sig-Holds key s s' h =
      let (seed, got, h1) = bind-ok (read_key F path) _ s h in
      let decoded = map_err-eq-ok _ _ (ap (λ x. x.0) h1) in
      subst (Holds key) (ap (λ x. x.1) h1)
        (map_err-eq-ok _ _ got ∙ ap ok (sym ((sig_seed_iff K d key seed).0 decoded)))

  make_sig-Holds :
      (key : K.dsa.SigningKey) (sig_seed : List ℕ) (s s' : F.State)
      → make_sig F K path sig_seed s ≡ (ok key, s')
      → Holds key s'
  unfolding make_sig
  make_sig-Holds key sig_seed s s' h =
      let (_, wrote, h1) = bind-ok (write_key F path _) _ s h in
      let is : sig_generate K sig_seed ≡ key = ok_injective (ap (λ x. x.0) h1) in
      subst (Holds key) (ap (λ x. x.1) h1)
        (write_key-read F fs path _ s wrote ∙ ap (λ x. ok (sig_secret_to_bytes K x)) is)

  client_sig-Holds :
      (key : K.dsa.SigningKey) (sig_seed : List ℕ) (s s' : F.State)
      → client_sig F K (some path) sig_seed s ≡ (ok key, s')
      → Holds key s'
  unfolding client_sig
  client_sig-Holds key sig_seed s s' h = elim (Bool-cases (F.exists path s)) [
    | inl e ↦ load_sig-Holds key s s' (rw e at h)
    | inr e ↦ make_sig-Holds key sig_seed s s' (rw e at h)
  ]

  Holds-client_sig :
      (key : K.dsa.SigningKey) (sig_seed : List ℕ) (s : F.State)
      → Holds key s
      → client_sig F K (some path) sig_seed s ≡ (ok key, s)
  unfolding client_sig load_sig read_key
  Holds-client_sig key sig_seed s h =
      rw (fs.exists-read path _ s h, h, (sig_seed_iff K d key (sig_secret_to_bytes K key)).1 refl)

  -- A client that is started with a key file, once a start has succeeded, has the same identity at
  -- every later start: the key of the file, or the one that its first start made and wrote there,
  -- whatever random bytes it draws, and the files stay. The public key is that of the signing key.
  -- The crates are as documented, and no other program writes the file.
  pub load_client_config_again :
      (args : Args F) (sig_seed sig_seed' : List ℕ) (s s' : F.State) (cfg : ClientConfig (v1 K))
      → args.client_key ≡ some path
      → load_client_config F K args sig_seed s ≡ (ok cfg, s')
      → (load_client_config F K args sig_seed' s' ≡ (ok cfg, s'))
        × (cfg.client_pk ≡ sig_public K cfg.sig_secret)
        × (F.read path s' ≡ ok (sig_secret_to_bytes K cfg.sig_secret))
  unfolding load_client_config
  load_client_config_again args sig_seed sig_seed' s s' cfg given h =
      let (key, made, h1) = bind-ok (client_sig F K (some path) sig_seed) _ s (rw given at h) in
      let is : record { sig_secret = key; client_pk = sig_public K key } ≡ cfg =
        ok_injective (ap (λ x. x.0) h1) in
      let holds : Holds key s' =
        client_sig-Holds key sig_seed s s' (λ i. (made i, ap (λ x. x.1) h1 i)) in
      subst
        (λ c.
          (load_client_config F K args sig_seed' s' ≡ (ok c, s'))
          × (c.client_pk ≡ sig_public K c.sig_secret)
          × (F.read path s' ≡ ok (sig_secret_to_bytes K c.sig_secret)))
        is (rw (given, Holds-client_sig key sig_seed' s' holds) refl, refl, holds)

module _ (F : Files) (K : Crates) where
  -- Whatever its key file, a client's public key is that of its signing key.
  pub load_client_config-key :
      (args : Args F) (sig_seed : List ℕ) (s s' : F.State) (ccfg : ClientConfig (v1 K))
      → load_client_config F K args sig_seed s ≡ (ok ccfg, s')
      → ccfg.client_pk ≡ sig_public K ccfg.sig_secret
  unfolding load_client_config
  load_client_config-key args sig_seed s s' ccfg h =
      let (key, _, h1) = bind-ok (client_sig F K args.client_key sig_seed) _ s h in
      subst (λ c. c.client_pk ≡ sig_public K c.sig_secret) (ok_injective (ap (λ x. x.0) h1)) refl

module _ (F : Files) where
  -- In strict mode without an authority.
  pub choose_verifier-strict :
      (args : Args F) (s s' : F.State) (verifier : ServerVerifier)
      → args.no_strict_cert ≡ false
      → args.ca ≡ none
      → choose_verifier F args s ≡ (ok verifier, s')
      → strict none ≡ verifier
  unfolding choose_verifier
  choose_verifier-strict args s s' verifier strictly alone h =
      ok_injective (ap (λ x. x.0) (rw (strictly, alone) at h))
