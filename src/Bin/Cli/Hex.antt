-- ===== src/Bin/Cli/Hex.antt =====
-- Hexadecimal text names its bytes.
use ort.Prelude.{
  ℕ, ◌+◌, ◌*◌, ◌/◌, ◌%◌, ◌≡◌, ◌≤◌, ◌<◌, List, [], ◌∷◌, ◌⊎◌, All, IsBytes, length, arith, refl,
  if◌then◌else◌, ltb, ◌-◌,
}
use ort.Bin.Cli.{hex_digit, hex}

-- A lowercase hexadecimal digit: `0` to `9` or `a` to `f`.
abbrev pub IsHexDigit : ℕ → Type 0
IsHexDigit c = ((b'0' ≤ c) × (c ≤ b'9')) ⊎ ((b'a' ≤ c) × (c ≤ b'f'))

hex_digit-IsHexDigit : (n : ℕ) → n < 16 → IsHexDigit (hex_digit n)
unfolding hex_digit
hex_digit-IsHexDigit n h = ground arith

-- The number of a digit.
unfoldable pub hex_value : ℕ → ℕ
hex_value c = if ltb c b'a' then c - b'0' else c + 10 - b'a'

hex_value-hex_digit : (n : ℕ) → n < 16 → hex_value (hex_digit n) ≡ n
unfolding hex_digit hex_value
hex_value-hex_digit n h = ground arith

unfoldable pub unhex : List ℕ → List ℕ
unfolding hex_value
unhex (c ∷ d ∷ rest) = (hex_value c * 16 + hex_value d) ∷ unhex rest
unhex rest = []

-- The text of bytes is two lowercase digits for each, and reading them gives the bytes back: a
-- printed key names one key.
pub unhex-hex :
    (bs : List ℕ)
    → IsBytes bs
    → (unhex (hex bs) ≡ bs) × (length (hex bs) ≡ 2 * length bs) × All IsHexDigit (hex bs)
unfolding unhex hex
unhex-hex [] h = (refl, refl, tt)
unhex-hex (b ∷ bs) (byte, bytes) =
    let (back, long, digits) = unhex-hex bs bytes in
    let high = hex_value-hex_digit (b / 16) (omega arith) in
    let low = hex_value-hex_digit (b % 16) (omega arith) in
    let value : hex_value (hex_digit (b / 16)) * 16 + hex_value (hex_digit (b % 16)) ≡ b =
      omega (arith, high, low) in
    (
      rw (value, back) refl,
      omega (arith, long),
      (
        hex_digit-IsHexDigit (b / 16) (omega arith),
        (hex_digit-IsHexDigit (b % 16) (omega arith), digits),
      ),
    )
