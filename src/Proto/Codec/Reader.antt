-- ===== src/Proto/Codec/Reader.antt =====
-- The bounds-checked `Reader` of crates/ort-proto/src/codec.rs: a slice and a position. An
-- operation is a function of the reader; the reader comes back only beside a result, since `?`
-- leaves the caller on an error.
use ort.Prelude.{
  ℕ, ◌+◌, ◌-◌, List, [], ◌∷◌, ok, err, ltb, ◌==◌, if◌then◌else◌, length, take, drop, be_value,
  and_then,
}
use ort.Proto.Error.{ProtoResult, truncated, trailing_bytes}

pub record Reader : Type 0 where
  pub buf : List ℕ
  pub pos : ℕ

abbrev pub Parser : Type 0 → Type 0
Parser A = Reader → ProtoResult (A × Reader)

infixl 10 ◌>>=◌
unfoldable pub ◌>>=◌ : {A B : Type 0} → Parser A → (A → Parser B) → Parser B
◌>>=◌ m f r = and_then (m r) (λ (a, r'). f a r')

unfoldable pub pure : {A : Type 0} → A → Parser A
pure a r = ok (a, r)

-- An error that does not depend on the reader.
unfoldable pub lift : {A : Type 0} → ProtoResult A → Parser A
lift m r = and_then m (λ a. ok (a, r))

unfoldable pub new : List ℕ → Reader
new buf = record { buf = buf; pos = 0 }

unfoldable pub remaining : Reader → ℕ
remaining r = length r.buf - r.pos

-- `&self.buf[self.pos..self.pos + n]`
unfoldable pub take_bytes : ℕ → Parser (List ℕ)
unfolding remaining
take_bytes n r =
    if ltb (remaining r) n
    then err truncated
    else ok (take n (drop r.pos r.buf), record r { pos = r.pos + n })

-- `take(1)?[0]`: the slice has one byte.
unfoldable pub first : List ℕ → ℕ
first [] = 0
first (b ∷ bs) = b

unfoldable pub u8 : Parser ℕ
unfolding take_bytes ◌>>=◌ pure first
u8 = do b ← take_bytes 1; pure (first b)

unfoldable pub u16 : Parser ℕ
unfolding take_bytes ◌>>=◌ pure
u16 = do b ← take_bytes 2; pure (be_value b)

unfoldable pub u32 : Parser ℕ
unfolding take_bytes ◌>>=◌ pure
u32 = do b ← take_bytes 4; pure (be_value b)

unfoldable pub u64 : Parser ℕ
unfolding take_bytes ◌>>=◌ pure
u64 = do b ← take_bytes 8; pure (be_value b)

unfoldable pub raw : ℕ → Parser (List ℕ)
unfolding take_bytes
raw n = take_bytes n

-- `copy_from_slice` into an array of the same length.
unfoldable pub array : ℕ → Parser (List ℕ)
unfolding take_bytes ◌>>=◌ pure
array n = do s ← take_bytes n; pure s

unfoldable pub bytes16 : Parser (List ℕ)
unfolding take_bytes ◌>>=◌ u16
bytes16 = do n ← u16; take_bytes n

unfoldable pub bytes32 : Parser (List ℕ)
unfolding take_bytes ◌>>=◌ u32
bytes32 = do n ← u32; take_bytes n

unfoldable pub expect_end : Parser (Unit {0})
unfolding remaining
expect_end r = if remaining r == 0 then ok (tt, r) else err (trailing_bytes (remaining r))
