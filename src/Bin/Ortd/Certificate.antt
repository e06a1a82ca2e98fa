-- ===== src/Bin/Ortd/Certificate.antt =====
-- The certificate that `ortd gen-cert` writes.
use Prim.Native.String
use Prim.Native.String.{String}
use ort.Prelude.{
  ℕ, ◌≡◌, ◌≢◌, refl, sym, ap, ◌∙◌, List, [], ◌∷◌, ◌++◌, true, false, All, Option, some, none, ok,
  map_err-eq-ok, ok_injective,
}
use mathlib.Core.Path.{subst}
use ort.Core.Handshake.Server.{ServerConfig}
use ort.Core.Suite.V1.{Crates, v1, kem_generate, kem_public}
use ort.Core.Suite.V1.Documented.{IsDocumented}
use ort.Net.Io.{bind-ok}
use ort.Net.Cert.{X509, strict, verify, str_eq, find_oid, extract_bound_server_pk, serverpk_oid_str}
use ort.Net.Cert.Policy.{IsBound, verify_iff}
use ort.Bin.Files.{Files, IsFileSystem}
use ort.Bin.Cli.{codes, hex, write_key, with_context}
use ort.Bin.Cli.Keys.{write_key-keeps}
use ort.Bin.Ortd.{
  RunArgs, cert_file, cert_signing_file, gen_key, gen_cert, load_or_make_kem, of_rcgen,
  load_server_config,
}
use ort.Bin.Ortd.Issuer.{Rcgen, IsRcgen, IsSelfSigned, dotted, serverpk_oid_u64}
use ort.Bin.Ortd.Keys.{
  IsApart, Holds, load_or_make_kem-Holds, Holds-load_server_config, config_of, gen_key-Generated,
}

-- The identifier is one, whether as numbers or as text.
dotted-serverpk_oid : dotted serverpk_oid_u64 ≡ serverpk_oid_str
unfolding dotted
dotted-serverpk_oid = refl

str_eq_refl : str_eq serverpk_oid_str serverpk_oid_str ≡ true
unfolding str_eq
str_eq_refl = refl

some_injective : {x y : List ℕ} → some x ≡ some y → x ≡ y
some_injective h = cc h

module _ (X : X509) where
  find_oid-append :
      (before after : List (String × List ℕ)) (content : List ℕ)
      → All (λ e. str_eq e.0 serverpk_oid_str ≡ false) before
      → find_oid X (before ++ ((serverpk_oid_str, content) ∷ after)) ≡ some content
  unfolding find_oid
  find_oid-append [] after content h = rw str_eq_refl
  find_oid-append ((oid, value) ∷ before) after content (h, hs) =
      rw (h, find_oid-append before after content hs)

  -- A certificate binds one key.
  IsBound-unique :
      (ca : Option (List ℕ)) (now : ℕ) (server_pk server_pk' der : List ℕ)
      → IsBound X ca now server_pk der
      → IsBound X ca now server_pk' der
      → server_pk ≡ server_pk'
  IsBound-unique ca now server_pk server_pk' der h k =
      let same : h.subject ≡ k.subject = ap (λ x. x.1) (ok_injective (sym h.parses ∙ k.parses)) in
      some_injective (sym h.binds ∙ ap (extract_bound_server_pk X) same ∙ k.binds)

  -- A self-signed certificate with the extension binds its content.
  IsSelfSigned-IsBound :
      (now : ℕ) (server_pk der : List ℕ)
      → IsSelfSigned X now serverpk_oid_u64 server_pk der
      → IsBound X none now server_pk der
  unfolding extract_bound_server_pk
  IsSelfSigned-IsBound now server_pk der h = record {
    subject = h.subject;
    rest = h.rest;
    present = h.present;
    parses = h.parses;
    current = h.current;
    signed = h.signed;
    binds =
        ap (find_oid X) h.lists
        ∙ ap (λ id. find_oid X (h.before ++ ((id, server_pk) ∷ h.after))) dotted-serverpk_oid
        ∙ find_oid-append h.before h.after server_pk
            (subst (λ id. All (λ e. str_eq e.0 id ≡ false) h.before) dotted-serverpk_oid h.others);
  }

module _ (F : Files) (fs : IsFileSystem F) (K : Crates) (d : IsDocumented K) (R : Rcgen) (X : X509)
    (now : ℕ) (rcgen : IsRcgen R X now) (dir : F.FilePath) (apart : IsApart F dir) where
  -- What `gen_cert` leaves when it succeeds.
  record Certified (lines : List (List ℕ)) (s : F.State) : Type 0 where
    kem : K.kem.DecapsulationKey
    certificate : List ℕ
    holds : Holds F fs K d dir apart kem s
    found : F.read (F.join dir cert_file) s ≡ ok certificate
    binds : IsBound X none now (kem_public K kem) certificate
    prints :
        lines
        ≡ codes (String.◌++◌ "wrote certificate to " (F.display (F.join dir cert_file)))
          ∷ (codes "server_pk (bound in cert): " ++ hex (kem_public K kem))
          ∷ []

  gen_cert-Certified :
      (kem_seed sign_seed cert_seed : List ℕ) (lines : List (List ℕ)) (s s' : F.State)
      → gen_cert F K R dir kem_seed sign_seed cert_seed s ≡ (ok lines, s')
      → Certified lines s'
  unfolding gen_cert of_rcgen
  gen_cert-Certified kem_seed sign_seed cert_seed lines s s' h =
      let (kem, made, h1) = bind-ok (load_or_make_kem F K dir kem_seed sign_seed) _ s h in
      let s1 = (load_or_make_kem F K dir kem_seed sign_seed s).1 in
      let holds1 : Holds F fs K d dir apart kem s1 =
        load_or_make_kem-Holds F fs K d dir apart kem kem_seed sign_seed s s1 (λ i. (made i, s1)) in
      let (key_pair, e1, h2) =
        bind-ok (of_rcgen F K "generate cert key" (R.generate_for cert_seed)) _ s1 h1 in
      let (params, e2, h3) =
        bind-ok (of_rcgen F K "cert params" (R.params_new ("ortd" ∷ []))) _ s1 h2 in
      let filled = R.push_extension serverpk_oid_u64 (kem_public K kem) params in
      let (der, e3, h4) =
        bind-ok (of_rcgen F K "self-sign cert" (R.self_signed filled key_pair)) _ s1 h3 in
      let (_, wrote, h5) =
        bind-ok (with_context F "write cert.der" (F.write (F.join dir cert_file) der)) _ s1 h4 in
      let s2 = (F.write (F.join dir cert_file) der s1).1 in
      let (_, wrote', h6) =
        bind-ok (write_key F (F.join dir cert_signing_file) (R.serialize_der key_pair)) _ s2 h5 in
      let p = F.join dir cert_signing_file in
      let there = fs.read-write (F.join dir cert_file) der s1 (map_err-eq-ok _ _ wrote) in
      let holds2 : Holds F fs K d dir apart kem s2 =
        fs.read-write_other _ _ der _ s1 apart.cert_kem holds1 in
      subst (Certified lines) (ap (λ x. x.1) h6) (record {
        kem = kem;
        certificate = der;
        holds = write_key-keeps F fs p _ _ _ s2 wrote' apart.cert_signing_kem holds2;
        found = write_key-keeps F fs p _ _ _ s2 wrote' apart.cert_signing_cert there;
        binds = IsSelfSigned-IsBound X now (kem_public K kem) der (
            rcgen.self_signed-IsSelfSigned params key_pair (kem_public K kem) der
              (map_err-eq-ok _ _ e2) (map_err-eq-ok _ _ e3));
        prints = ok_injective (sym (ap (λ x. x.0) h6));
      })

  -- After `ortd gen-cert` has succeeded in a directory, the server that is started with this
  -- directory has a key and a certificate that a strict client without a pinned authority accepts
  -- for this key, and the key was printed. The crates are as documented, the directory's files are
  -- different ones, and no other program writes them.
  pub load_server_config-gen_cert :
      (args : RunArgs F K) (kem_seed sign_seed cert_seed seed : List ℕ) (lines : List (List ℕ))
      (s s' : F.State)
      → args.cert ≡ some dir
      → gen_cert F K R dir kem_seed sign_seed cert_seed s ≡ (ok lines, s')
      → (cfg : ServerConfig (v1 K)) × (load_server_config F K args seed s' ≡ (ok cfg, s'))
        × (verify X (strict none) now cfg.server_pk cfg.certificate ≡ ok tt)
        × (cfg.server_pk ≡ kem_public K cfg.kem_secret)
        × (lines
            ≡ codes (String.◌++◌ "wrote certificate to " (F.display (F.join dir cert_file)))
              ∷ (codes "server_pk (bound in cert): " ++ hex cfg.server_pk)
              ∷ [])
  load_server_config-gen_cert args kem_seed sign_seed cert_seed seed lines s s' given h =
      let made = gen_cert-Certified kem_seed sign_seed cert_seed lines s s' h in
      (
        config_of F fs K d dir apart args made.kem made.certificate,
        Holds-load_server_config F fs K d dir apart args made.kem made.certificate seed s' given
            made.holds made.found,
        (verify_iff X none now _ _).1 made.binds,
        refl,
        made.prints,
      )

  -- `ortd gen-key` in a directory that `ortd gen-cert` was run in leaves the certificate, which
  -- binds the old key: if the new key's public key is another, the server starts with the new key,
  -- and a strict client without a pinned authority refuses it. The crates are as documented, both
  -- commands succeed, the directory's files are different ones, and no other program writes them.
  pub gen_key-stale :
      (args : RunArgs F K) (kem_seed sign_seed cert_seed kem_seed' sign_seed' seed : List ℕ)
      (lines lines' : List (List ℕ)) (s s1 s2 : F.State) (cfg : ServerConfig (v1 K))
      → args.cert ≡ some dir
      → gen_cert F K R dir kem_seed sign_seed cert_seed s ≡ (ok lines, s1)
      → load_server_config F K args seed s1 ≡ (ok cfg, s1)
      → gen_key F K dir kem_seed' sign_seed' s1 ≡ (ok lines', s2)
      → kem_public K (kem_generate K kem_seed') ≢ cfg.server_pk
      → (cfg' : ServerConfig (v1 K)) × (load_server_config F K args seed s2 ≡ (ok cfg', s2))
        × (cfg'.kem_secret ≡ kem_generate K kem_seed')
        × (cfg'.certificate ≡ cfg.certificate)
        × (verify X (strict none) now cfg'.server_pk cfg'.certificate ≢ ok tt)
  gen_key-stale args kem_seed sign_seed cert_seed kem_seed' sign_seed' seed lines lines' s s1 s2 cfg
        given certified loaded generated differs =
      let old = gen_cert-Certified kem_seed sign_seed cert_seed lines s s1 certified in
      let new = gen_key-Generated F fs K d dir apart kem_seed' sign_seed' lines' s1 s2 generated in
      let was : config_of F fs K d dir apart args old.kem old.certificate ≡ cfg = ok_injective (
        ap (λ x. x.0)
          (sym (
              Holds-load_server_config F fs K d dir apart args old.kem old.certificate seed s1 given
                old.holds old.found)
            ∙ loaded)) in
      (
        config_of F fs K d dir apart args (kem_generate K kem_seed') old.certificate,
        Holds-load_server_config F fs K d dir apart args _ old.certificate seed s2 given new.holds
            (new.keeps old.certificate old.found),
        refl,
        ap (λ x. x.certificate) was,
        λ accepted. differs (
            IsBound-unique X none now _ _ old.certificate ((verify_iff X none now _ _).0 accepted)
              old.binds
            ∙ ap (λ x. x.server_pk) was),
      )
