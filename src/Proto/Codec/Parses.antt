-- ===== src/Proto/Codec/Parses.antt =====
-- What a reader does on the bytes that a writer wrote: on all of them, followed by anything, it
-- returns the value and stands behind them; on a proper prefix of them it is `truncated`. One rule
-- for each operation of `Reader`, and one for each way to put readers in sequence.
use ort.Prelude.{
  ℕ, ◌+◌, ◌%◌, ◌^◌, ◌≤◌, ◌<◌, ◌≡◌, refl, sym, ap, ◌∙◌, List, [], ◌∷◌, ◌++◌, append_assoc, ok, err,
  lt→ltb, le→ltb, inl, inr, IsU16, IsU32, IsU64, length, length-append, length-drop,
  length-be_bytes, ◌==◌, if◌then◌else◌, take-append, drop, drop-append, drop-drop, prefix-append,
  be_bytes, be_value, be_value-be_bytes, arith,
}
use ort.Proto.Error.{ProtoResult, truncated, trailing_bytes}
use ort.Proto.Codec.Writer.{field16, field32}
use ort.Proto.Codec.Reader.{
  Reader, Parser, ◌>>=◌, pure, lift, remaining, take_bytes, u8, u16, u32, u64, array, bytes16,
  bytes32, expect_end,
}

-- The bytes that are still to be read.
abbrev pub unread : Reader → List ℕ
unread r = drop r.pos r.buf

abbrev pub advance : ℕ → Reader → Reader
advance n r = record r { pos = r.pos + n }

pub remaining-unread : (r : Reader) → remaining r ≡ length (unread r)
unfolding remaining
remaining-unread r = sym (length-drop r.pos r.buf)

pub record Parses {A : Type 0} (p : Parser A) (bs : List ℕ) (a : A) : Type 0 where
  pub reads :
      (r : Reader) (tail : List ℕ) → unread r ≡ bs ++ tail → p r ≡ ok (a, advance (length bs) r)
  pub cuts :
      (r : Reader) (c : ℕ) (back : List ℕ) → bs ≡ unread r ++ (c ∷ back) → p r ≡ err truncated

pub unread-advance :
    (r : Reader) (bs tail : List ℕ) → unread r ≡ bs ++ tail → unread (advance (length bs) r) ≡ tail
unread-advance r bs tail e =
    sym (drop-drop r.pos (length bs) r.buf)
    ∙ ap (drop (length bs)) e
    ∙ drop-append (length bs) bs tail refl

advance-advance :
    (r : Reader) (xs ys : List ℕ)
    → advance (length ys) (advance (length xs) r) ≡ advance (length (xs ++ ys)) r
advance-advance r xs ys =
    ap (λ n. record r { pos = n }) {x = r.pos + length xs + length ys}
      (omega (arith, length-append xs ys))

length-unread_whole :
    (r : Reader) (bs tail : List ℕ) → unread r ≡ bs ++ tail → length bs ≤ remaining r
length-unread_whole r bs tail e =
    omega (arith, remaining-unread r, ap length e, length-append bs tail)

length-unread_prefix :
    (r : Reader) (bs : List ℕ) (c : ℕ) (back : List ℕ)
    → bs ≡ unread r ++ (c ∷ back)
    → remaining r < length bs
length-unread_prefix r bs c back e =
    omega (arith, remaining-unread r, ap length e, length-append (unread r) (c ∷ back))

pub take-Parses : (n : ℕ) (bs : List ℕ) → length bs ≡ n → Parses (take_bytes n) bs bs
unfolding take_bytes
take-Parses n bs h = record {
  reads = λ r tail e.
      rw (le→ltb (remaining r) n (rw h at (length-unread_whole r bs tail e)))
        (rw (e, take-append n bs tail h, h));
  cuts = λ r c back e. rw (lt→ltb (remaining r) n (rw h at (length-unread_prefix r bs c back e)));
}

module _ {A B : Type 0} {p : Parser A} (f : A → Parser B) {xs ys : List ℕ} {a : A} {b : B} where
  pub Parses-bind : Parses p xs a → Parses (f a) ys b → Parses (p >>= f) (xs ++ ys) b
  unfolding ◌>>=◌
  Parses-bind hp hf = record {
    reads = λ r tail e.
        let e' : unread r ≡ xs ++ (ys ++ tail) = e ∙ append_assoc xs ys tail in
        rw (hp.reads r (ys ++ tail) e') (
          hf.reads (advance (length xs) r) tail (unread-advance r xs (ys ++ tail) e')
          ∙ ap (λ r'. ok (b, r')) (advance-advance r xs ys));
    cuts = λ r c back e. elim (prefix-append xs ys (unread r) c back e) [
      | inl (d, rest, q) ↦ rw (hp.cuts r d rest q)
      | inr (front', q, q') ↦
          rw (hp.reads r front' q)
            (hf.cuts (advance (length xs) r) c back (rw (unread-advance r xs front' q) q'))
    ];
  }

module _ {A B : Type 0} {p : Parser A} (g : A → B) {bs : List ℕ} {a : A} where
  -- A last step that only builds the result.
  pub Parses-map : Parses p bs a → Parses (p >>= λ x. pure (g x)) bs (g a)
  unfolding ◌>>=◌ pure
  Parses-map hp = record {
    reads = λ r tail e. rw (hp.reads r tail e);
    cuts = λ r c back e. rw (hp.cuts r c back e);
  }

not-nil-append : (front : List ℕ) (c : ℕ) (back : List ℕ) → ¬ ([] ≡ front ++ (c ∷ back))
not-nil-append front c back e = absurd (omega (arith, ap length e, length-append front (c ∷ back)))

-- A step that takes no byte.
pub lift-Parses : {A : Type 0} (m : ProtoResult A) {a : A} → m ≡ ok a → Parses (lift m) [] a
unfolding lift
lift-Parses m {a = a} e = record {
  reads = λ r tail _.
      rw e (ap (λ n. ok (a, record r { pos = n })) {x = r.pos} {y = r.pos + 0} (omega arith));
  cuts = λ r c back q. absurd (not-nil-append (unread r) c back q);
}

pub pure-Parses : {A : Type 0} (a : A) → Parses (pure a) [] a
unfolding lift pure
pure-Parses a = lift-Parses (ok a) refl

pub u8-Parses : (v : ℕ) → Parses u8 (v ∷ []) v
unfolding u8
u8-Parses v = Parses-map _ (take-Parses 1 (v ∷ []) refl)

module _ (v : ℕ) where
  word_Parses :
      (w : ℕ) → v < 256 ^ w → Parses (take_bytes w >>= λ b. pure (be_value b)) (be_bytes w v) v
  word_Parses w h =
      rw (be_value-be_bytes w v h) at
        (Parses-map be_value (take-Parses w (be_bytes w v) (length-be_bytes w v)))

  pub u16-Parses : IsU16 v → Parses u16 (be_bytes 2 v) v
  unfolding u16
  u16-Parses h = word_Parses 2 h

  pub u32-Parses : IsU32 v → Parses u32 (be_bytes 4 v) v
  unfolding u32
  u32-Parses h = word_Parses 4 h

  pub u64-Parses : IsU64 v → Parses u64 (be_bytes 8 v) v
  unfolding u64
  u64-Parses h = word_Parses 8 h

module _ (b : List ℕ) where
  pub array-Parses : (n : ℕ) → length b ≡ n → Parses (array n) b b
  unfolding array
  array-Parses n h = Parses-map (λ s. s) (take-Parses n b h)

  pub bytes16-Parses : IsU16 (length b) → Parses bytes16 (field16 b) b
  unfolding bytes16 field16
  bytes16-Parses h =
      Parses-bind take_bytes (u16-Parses (length b % 2 ^ 16) (omega arith))
        (take-Parses _ b (omega arith))

  pub bytes32-Parses : IsU32 (length b) → Parses bytes32 (field32 b) b
  unfolding bytes32 field32
  bytes32-Parses h =
      Parses-bind take_bytes (u32-Parses (length b % 2 ^ 32) (omega arith))
        (take-Parses _ b (omega arith))

-- `expect_end` reports what the reader has not taken.
pub expect_end-unread :
    (r : Reader)
    → expect_end r
      ≡ (if length (unread r) == 0 then ok (tt, r) else err (trailing_bytes (length (unread r))))
unfolding expect_end
expect_end-unread r = rw remaining-unread refl
