-- ===== src/Bin/Cli/Keys.antt =====
-- A key file that was written.
use ort.Prelude.{ℕ, ◌≡◌, ◌≢◌, List, Option, none, some, ok, Bool-cases, inl, inr, map_err-eq-ok, ap}
use mathlib.Core.Path.{subst}
use ort.Net.Io.{bind-ok}
use ort.Bin.Files.{Files, IsFileSystem}
use ort.Bin.Cli.{make_parent, restrict, write_key, with_context}

module _ (F : Files) (fs : IsFileSystem F) where
  make_parent-keeps :
      (d : Option F.FilePath) (q : F.FilePath) (bs' : List ℕ) (s : F.State)
      → F.read q s ≡ ok bs'
      → F.read q (make_parent F d s).1 ≡ ok bs'
  unfolding make_parent
  make_parent-keeps none q bs' s h = h
  make_parent-keeps (some d) q bs' s h = elim (Bool-cases (F.is_empty d)) [
    | inl e ↦ rw e h
    | inr e ↦ rw e (fs.read-create_dir_all d q bs' s h)
  ]

  -- What a write of a key that succeeds comes to.
  write_key-steps :
      (p : F.FilePath) (bs : List ℕ) (s : F.State)
      → (write_key F p bs s).0 ≡ ok tt
      → let s1 = (make_parent F (F.parent p) s).1 in
        ((F.write p bs s1).0 ≡ ok tt)
        × ((F.set_permissions 0o600 p (F.write p bs s1).1).1 ≡ (write_key F p bs s).1)
  unfolding write_key restrict
  write_key-steps p bs s h =
      let (_, _, h1) =
        bind-ok (make_parent F (F.parent p)) _ s (λ i. (h i, (write_key F p bs s).1)) in
      let (_, wrote, h2) =
        bind-ok (with_context F _ (F.write p bs)) (λ _. restrict F p)
          (make_parent F (F.parent p) s).1 h1 in
      (map_err-eq-ok _ _ wrote, ap (λ x. x.1) h2)

  -- A key that was written is there.
  pub write_key-read :
      (p : F.FilePath) (bs : List ℕ) (s : F.State)
      → (write_key F p bs s).0 ≡ ok tt
      → F.read p (write_key F p bs s).1 ≡ ok bs
  write_key-read p bs s h =
      let (wrote, left) = write_key-steps p bs s h in
      subst (λ x. F.read p x ≡ ok bs) left
        (fs.read-set_permissions p p bs _ (fs.read-write p bs _ wrote))

  -- Another file stays.
  pub write_key-keeps :
      (p q : F.FilePath) (bs bs' : List ℕ) (s : F.State)
      → (write_key F p bs s).0 ≡ ok tt
      → p ≢ q
      → F.read q s ≡ ok bs'
      → F.read q (write_key F p bs s).1 ≡ ok bs'
  write_key-keeps p q bs bs' s h differs old =
      let (wrote, left) = write_key-steps p bs s h in
      subst (λ x. F.read q x ≡ ok bs') left
        (fs.read-set_permissions p q bs' _
          (fs.read-write_other p q bs bs' _ differs (make_parent-keeps (F.parent p) q bs' s old)))
