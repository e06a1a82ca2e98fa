-- ===== src/Proto/Codec/Writer.antt =====
-- The append-only `Writer` of crates/ort-proto/src/codec.rs. `&mut self` is the last argument, and
-- the chain `w.f(a).g(b)` is `w ▹ f a ▹ g b`. Casts to `u16` and `u32` keep the low bits.
use ort.Prelude.{ℕ, ◌%◌, ◌^◌, ◌≡◌, List, [], ◌∷◌, ◌++◌, append_assoc, length, be_bytes}

pub record Writer : Type 0 where
  pub buf : List ℕ

infixl 20 ◌▹◌
abbrev pub ◌▹◌ : Writer → (Writer → Writer) → Writer
w ▹ f = f w

unfoldable pub new : Writer
new = record { buf = [] }

-- `Vec::with_capacity` reserves and writes nothing.
unfoldable pub with_capacity : ℕ → Writer
with_capacity cap = record { buf = [] }

unfoldable pub into_bytes : Writer → List ℕ
into_bytes w = w.buf

unfoldable pub u8 : ℕ → Writer → Writer
u8 v w = record { buf = w.buf ++ (v ∷ []) }

unfoldable pub u16 : ℕ → Writer → Writer
u16 v w = record { buf = w.buf ++ be_bytes 2 v }

unfoldable pub u32 : ℕ → Writer → Writer
u32 v w = record { buf = w.buf ++ be_bytes 4 v }

unfoldable pub u64 : ℕ → Writer → Writer
u64 v w = record { buf = w.buf ++ be_bytes 8 v }

unfoldable pub raw : List ℕ → Writer → Writer
raw b w = record { buf = w.buf ++ b }

-- In a release build `b.len() as u16` wraps; the `debug_assert!` is compiled out.
unfoldable pub bytes16 : List ℕ → Writer → Writer
unfolding u16
bytes16 b w = let w' = u16 (length b % 2 ^ 16) w in record { buf = w'.buf ++ b }

unfoldable pub bytes32 : List ℕ → Writer → Writer
unfolding u32
bytes32 b w = let w' = u32 (length b % 2 ^ 32) w in record { buf = w'.buf ++ b }

-- The bytes of a length-prefixed field.
unfoldable pub field16 : List ℕ → List ℕ
field16 b = be_bytes 2 (length b % 2 ^ 16) ++ b

unfoldable pub field32 : List ℕ → List ℕ
field32 b = be_bytes 4 (length b % 2 ^ 32) ++ b

pub bytes16-field16 : (b : List ℕ) (w : Writer) → (bytes16 b w).buf ≡ w.buf ++ field16 b
unfolding bytes16 field16
bytes16-field16 b w = append_assoc w.buf _ b

pub bytes32-field32 : (b : List ℕ) (w : Writer) → (bytes32 b w).buf ≡ w.buf ++ field32 b
unfolding bytes32 field32
bytes32-field32 b w = append_assoc w.buf _ b
