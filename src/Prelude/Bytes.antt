-- ===== src/Prelude/Bytes.antt =====
-- Bytes, machine words, and the big-endian conversions of Rust's integer types.
use Prim.Native.Nat.{ℕ, zero, suc, ◌+◌, ◌-◌, ◌*◌, ◌/◌, ◌%◌, ◌^◌, ◌<◌}
use Prim.Native.Char.{code}
use Prim.Native.String.{String}
use mathlib.Core.Path.{◌≡◌, refl, sym, ap, ◌∙◌}
use mathlib.Core.List.{List, [], ◌∷◌, reverse, reverse-reverse}
use native.Mathlib.Omega.{arith}
use native.Mathlib.Nat.{pow-suc}
use ort.Prelude.Lists.{length, All, All-reverse, length-reverse}

abbrev pub IsByte : ℕ → Type 0
IsByte b = b < 256

abbrev pub IsBytes : List ℕ → Type 0
IsBytes = All IsByte

abbrev pub IsU16 : ℕ → Type 0
IsU16 v = v < 2 ^ 16

abbrev pub IsU32 : ℕ → Type 0
IsU32 v = v < 2 ^ 32

abbrev pub IsU64 : ℕ → Type 0
IsU64 v = v < 2 ^ 64

abbrev pub max_u64 : ℕ
max_u64 = 2 ^ 64 - 1

-- `w` bytes of `v`, lowest first, and back.
le_bytes : ℕ → ℕ → List ℕ
le_bytes zero v = []
le_bytes (suc w) v = (v % 256) ∷ le_bytes w (v / 256)

le_value : List ℕ → ℕ
le_value [] = 0
le_value (b ∷ bs) = b + 256 * le_value bs

le_value-le_bytes : (w v : ℕ) → v < 256 ^ w → le_value (le_bytes w v) ≡ v
unfolding le_bytes le_value
le_value-le_bytes zero v h = omega arith
le_value-le_bytes (suc w) v h =
    omega (arith, pow-suc 256 w, le_value-le_bytes w (v / 256) (omega (arith, pow-suc 256 w)))

le_bytes-le_value : (bs : List ℕ) → IsBytes bs → le_bytes (length bs) (le_value bs) ≡ bs
unfolding le_bytes le_value
le_bytes-le_value [] h = refl
le_bytes-le_value (b ∷ bs) h = ground (arith, le_bytes-le_value bs h.1)

le_value-lt : (bs : List ℕ) → IsBytes bs → le_value bs < 256 ^ length bs
unfolding le_value
le_value-lt [] h = omega arith
le_value-lt (b ∷ bs) h = omega (arith, pow-suc 256 (length bs), le_value-lt bs h.1)

length-le_bytes : (w v : ℕ) → length (le_bytes w v) ≡ w
unfolding le_bytes
length-le_bytes zero v = refl
length-le_bytes (suc w) v = ap suc (length-le_bytes w (v / 256))

le_bytes-IsBytes : (w v : ℕ) → IsBytes (le_bytes w v)
unfolding le_bytes
le_bytes-IsBytes zero v = tt
le_bytes-IsBytes (suc w) v = (omega arith, le_bytes-IsBytes w (v / 256))

-- `to_be_bytes` of an integer of `w` bytes.
unfoldable pub be_bytes : ℕ → ℕ → List ℕ
unfolding le_bytes
be_bytes w v = reverse (le_bytes w v)

-- `from_be_bytes`.
unfoldable pub be_value : List ℕ → ℕ
unfolding le_value
be_value bs = le_value (reverse bs)

module _ (w : ℕ) where
  pub length-be_bytes : (v : ℕ) → length (be_bytes w v) ≡ w
  unfolding be_bytes
  length-be_bytes v = length-reverse (le_bytes w v) ∙ length-le_bytes w v

  pub be_bytes-IsBytes : (v : ℕ) → IsBytes (be_bytes w v)
  unfolding be_bytes
  be_bytes-IsBytes v = All-reverse IsByte (le_bytes w v) (le_bytes-IsBytes w v)

  -- What `to_be_bytes` writes, `from_be_bytes` reads back.
  pub be_value-be_bytes : (v : ℕ) → v < 256 ^ w → be_value (be_bytes w v) ≡ v
  unfolding be_bytes be_value
  be_value-be_bytes v h = rw reverse-reverse (le_value-le_bytes w v h)

  -- Every string of `w` bytes is written by the value that it reads as.
  pub be_bytes-be_value : (bs : List ℕ) → IsBytes bs → length bs ≡ w → be_bytes w (be_value bs) ≡ bs
  unfolding be_bytes be_value
  be_bytes-be_value bs h e =
      ap reverse {x = le_bytes w (le_value (reverse bs))} {y = reverse bs}
        (rw (← (length-reverse bs ∙ e)) (le_bytes-le_value (reverse bs) (All-reverse IsByte bs h)))
      ∙ reverse-reverse bs

  pub be_value-lt : (bs : List ℕ) → IsBytes bs → length bs ≡ w → be_value bs < 256 ^ w
  unfolding be_value
  be_value-lt bs h e =
      rw (← (length-reverse bs ∙ e)) (le_value-lt (reverse bs) (All-reverse IsByte bs h))

  -- Distinct words are written differently.
  pub be_bytes_injective :
      (u v : ℕ) → u < 256 ^ w → v < 256 ^ w → be_bytes w u ≡ be_bytes w v → u ≡ v
  be_bytes_injective u v hu hv e =
      sym (be_value-be_bytes u hu) ∙ ap be_value e ∙ be_value-be_bytes v hv

-- A byte string literal of Rust, `b"…"`, for ASCII text.
abbrev pub ascii : String → List ℕ
ascii String.[] = []
ascii (String.◌∷◌ c s) = code c ∷ ascii s
