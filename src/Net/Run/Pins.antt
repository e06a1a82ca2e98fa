-- ===== src/Net/Run/Pins.antt =====
-- What the client's tasks keep, however they interleave.
use ort.Prelude.{
  ℕ, ◌≡◌, refl, ap, List, [], ◌∷◌, ◌++◌, Bool, Option, none, some, ok, inl, inr, All, All-append,
  All-append_left, All-append_right,
}
use mathlib.Core.Path.{subst}
use ort.Core.Suite.Cipher.{CipherSuite, Blake3}
use ort.Core.Handshake.Client.{ClientConfig}
use ort.Net.Stream.{Stream}
use ort.Net.Cert.{X509, ServerVerifier, verify}
use ort.Net.Session.{ClientOutcome}
use ort.Net.Session.Trust.{client_open-IsTrusted}
use ort.Net.Run.{remember, Tasks, idle, Ends, Step, begin, succeed, give_up, Steps, here, then}

-- Without the element in the middle.
All-without :
    {A : Type 0} (P : A → Type 0) (xs ys : List A) (a : A)
    → All P (xs ++ (a ∷ ys))
    → P a × All P (xs ++ ys)
All-without P xs ys a h =
    let (pa, right) = All-append_right P xs (a ∷ ys) h in
    (pa, All-append P xs ys (All-append_left P xs (a ∷ ys) h) right)

module _ (S : CipherSuite) (B : Blake3) (I : Stream) (X : X509) (ccfg : ClientConfig S)
    (verifier : ServerVerifier) (force_1rtt : Bool) where
  -- At some time the verifier accepts the key with some certificate.
  abbrev pub IsVerified : List ℕ → Type 0
  IsVerified key =
      (cert_now : ℕ) × (certificate : List ℕ) × (verify X verifier cert_now key certificate ≡ ok tt)

  abbrev IsVerifiedPin : Option (List ℕ) → Type 0
  IsVerifiedPin none = Unit
  IsVerifiedPin (some key) = IsVerified key

  abbrev Kept : Tasks → Type 0
  Kept t = IsVerifiedPin t.pin × All IsVerifiedPin t.waiting × All IsVerified t.opened

  Ends-IsVerified :
      (cached : Option (List ℕ)) (outcome : ClientOutcome S B I)
      → Ends S B I X ccfg verifier force_1rtt cached outcome
      → IsVerifiedPin cached
      → IsVerified outcome.server_pk
  Ends-IsVerified cached outcome e h =
      elim (client_open-IsTrusted S B I X ccfg e.src_ip verifier e.cert_now e.now e.r e.nonce []
        cached force_1rtt e.before e.after outcome e.ends) [
          | inl is ↦ subst IsVerifiedPin is h
          | inr (_, certificate, v) ↦ (e.cert_now, certificate, v)
        ]

  remember-IsVerifiedPin :
      (pin : Option (List ℕ)) (key : List ℕ)
      → IsVerifiedPin pin
      → IsVerified key
      → IsVerifiedPin (remember key pin)
  unfolding remember
  remember-IsVerifiedPin none key h k = k
  remember-IsVerifiedPin (some pin) key h k = h

  Step-Kept : (t u : Tasks) → Step S B I X ccfg verifier force_1rtt t u → Kept t → Kept u
  Step-Kept _ _ (begin t) (p, w, o) = (p, (p, w), o)
  Step-Kept _ _ (succeed t older newer cached outcome is e) (p, w, o) =
      let (c, rest) =
        All-without IsVerifiedPin newer older cached (subst (All IsVerifiedPin) is w) in
      let k = Ends-IsVerified cached outcome e c in
      (remember-IsVerifiedPin t.pin outcome.server_pk p k, rest, (k, o))
  Step-Kept _ _ (give_up t older newer cached is) (p, w, o) =
      let (_, rest) =
        All-without IsVerifiedPin newer older cached (subst (All IsVerifiedPin) is w) in
      (p, rest, o)

  Steps-Kept : (t u : Tasks) → Steps S B I X ccfg verifier force_1rtt t u → Kept t → Kept u
  Steps-Kept _ _ (here t) h = h
  Steps-Kept _ _ (then t u v before last) h = Step-Kept u v last (Steps-Kept t u before h)

  -- However the client's tasks interleave, every tunnel that was opened has a key that the verifier
  -- accepted with some certificate, in the handshake that opened it or in one that pinned the key.
  pub opened-IsVerified :
      (t : Tasks) → Steps S B I X ccfg verifier force_1rtt idle t → All IsVerified t.opened
  opened-IsVerified t h = (Steps-Kept idle t h (tt, tt, tt)).2

  -- The pin is `key`, and so is every copy.
  abbrev Pinned : List ℕ → List (List ℕ) → Tasks → Type 0
  Pinned key old t =
      (t.pin ≡ some key)
      × All (λ c. c ≡ some key) t.waiting
      × (new : List (List ℕ)) × (t.opened ≡ new ++ old)
      × All (λ k. k ≡ key) new

  Ends-pinned :
      (key : List ℕ) (cached : Option (List ℕ)) (outcome : ClientOutcome S B I)
      → Ends S B I X ccfg verifier force_1rtt cached outcome
      → cached ≡ some key
      → outcome.server_pk ≡ key
  Ends-pinned key cached outcome e c =
      elim (client_open-IsTrusted S B I X ccfg e.src_ip verifier e.cert_now e.now e.r e.nonce []
        cached force_1rtt e.before e.after outcome e.ends) [
          | inl is ↦ cc (is, c)
          | inr (is, _, _) ↦ absurd (cc (is, c))
        ]

  Step-Pinned :
      (key : List ℕ) (old : List (List ℕ)) (t u : Tasks)
      → Step S B I X ccfg verifier force_1rtt t u
      → Pinned key old t
      → Pinned key old u
  unfolding remember
  Step-Pinned key old _ _ (begin t) (p, w, new, o, all) = (p, (p, w), new, o, all)
  Step-Pinned key old _ _ (succeed t older newer cached outcome is e) (p, w, new, o, all) =
      let (c, rest) =
        All-without (λ c. c ≡ some key) newer older cached (subst (All (λ c. c ≡ some key)) is w) in
      let same : outcome.server_pk ≡ key = Ends-pinned key cached outcome e c in
      (rw p, rest, outcome.server_pk ∷ new, ap (λ x. outcome.server_pk ∷ x) o, (same, all))
  Step-Pinned key old _ _ (give_up t older newer cached is) (p, w, new, o, all) =
      let (_, rest) =
        All-without (λ c. c ≡ some key) newer older cached (subst (All (λ c. c ≡ some key)) is w) in
      (p, rest, new, o, all)

  Steps-Pinned :
      (key : List ℕ) (old : List (List ℕ)) (t u : Tasks)
      → Steps S B I X ccfg verifier force_1rtt t u
      → Pinned key old t
      → Pinned key old u
  Steps-Pinned key old _ _ (here t) h = h
  Steps-Pinned key old _ _ (then t u v before last) h =
      Step-Pinned key old u v last (Steps-Pinned key old t u before h)

  -- Once a key is pinned and no task is in its handshake, the pin stays, and every tunnel opened
  -- from then on has that key, forced to 1-RTT or not and however the tasks interleave.
  pub opened-pinned :
      (key : List ℕ) (t u : Tasks)
      → t.pin ≡ some key
      → t.waiting ≡ []
      → Steps S B I X ccfg verifier force_1rtt t u
      → (u.pin ≡ some key)
        × (new : List (List ℕ)) × (u.opened ≡ new ++ t.opened)
        × All (λ k. k ≡ key) new
  opened-pinned key t u p w steps =
      let (p', _, new, o, all) = Steps-Pinned key t.opened t u steps (p, rw w tt, [], refl, tt) in
      (p', new, o, all)
