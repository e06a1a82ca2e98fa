-- ===== src/Core/Handshake/Handler.antt =====
-- Functions of the server that may fail and hold `&mut StrikeCache`: what was written to the cache
-- before an error stays written.
use ort.Prelude.{ok, err}
use ort.Core.Error.{CoreResult}
use ort.Core.Replay.{StrikeCache}

abbrev pub Handler {ℓ} : Type ℓ → Type ℓ
Handler A = StrikeCache → CoreResult A × StrikeCache

abbrev continue {ℓ κ} :
    {A : Type ℓ} {B : Type κ}
    → CoreResult A
    → (A → Handler B)
    → StrikeCache
    → CoreResult B × StrikeCache
continue (ok a) f s = f a s
continue (err e) f s = (err e, s)

infixl 10 ◌>>=◌ ◌>>◌
abbrev pub ◌>>=◌ {ℓ κ} : {A : Type ℓ} {B : Type κ} → Handler A → (A → Handler B) → Handler B
◌>>=◌ m f s = let (r, s') = m s in continue r f s'

abbrev pub ◌>>◌ {ℓ κ} : {A : Type ℓ} {B : Type κ} → Handler A → Handler B → Handler B
m >> n = m >>= λ _. n

-- A step that does not touch the cache.
abbrev pub lift {ℓ} : {A : Type ℓ} → CoreResult A → Handler A
lift r s = (r, s)
