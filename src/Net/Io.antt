-- ===== src/Net/Io.antt =====
-- Functions that may fail and change a state `W`: what was changed before an error stays changed.
use ort.Prelude.{Result, ok, err, ◌≡◌, refl, ap}

abbrev pub Io {ℓ κ λ'} : Type ℓ → Type κ → Type λ' → Type (ℓ ⊔ κ ⊔ λ')
Io E W A = W → Result E A × W

module _ {ℓ κ λ' μ} {E : Type ℓ} {W : Type κ} {A : Type λ'} {B : Type μ} where
  abbrev continue : Result E A → (A → Io E W B) → W → Result E B × W
  continue (ok a) f w = f a w
  continue (err e) f w = (err e, w)

  infixl 10 ◌>>=◌ ◌>>◌
  abbrev pub ◌>>=◌ : Io E W A → (A → Io E W B) → Io E W B
  ◌>>=◌ m f w = let (r, w') = m w in continue r f w'

  abbrev pub ◌>>◌ : Io E W A → Io E W B → Io E W B
  m >> n = m >>= λ _. n

  -- An error ends the rest.
  pub bind-err :
      (m : Io E W A) (f : A → Io E W B) (w : W) (e : E) → (m w).0 ≡ err e → ((m >>= f) w).0 ≡ err e
  bind-err m f w e h = rw h

  continue-ok :
      (r : Result E A) (f : A → Io E W B) (w1 : W) {b : B} {w' : W}
      → continue r f w1 ≡ (ok b, w')
      → (a : A) × (r ≡ ok a) × (f a w1 ≡ (ok b, w'))
  continue-ok (ok a) f w1 h = (a, refl, h)
  continue-ok (err e) f w1 h = absurd (cc (ap (λ x. x.0) h))

  -- Where a sequence succeeds, its first part did.
  pub bind-ok :
      (m : Io E W A) (f : A → Io E W B) (w : W) {b : B} {w' : W}
      → (m >>= f) w ≡ (ok b, w')
      → (a : A) × ((m w).0 ≡ ok a) × (f a (m w).1 ≡ (ok b, w'))
  bind-ok m f w h = continue-ok (m w).0 f (m w).1 h

-- A step that leaves the state.
abbrev pub lift {ℓ κ λ'} : {E : Type ℓ} {W : Type κ} {A : Type λ'} → Result E A → Io E W A
lift r w = (r, w)
