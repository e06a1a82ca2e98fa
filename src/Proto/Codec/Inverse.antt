-- ===== src/Proto/Codec/Inverse.antt =====
-- What a successful read says of the bytes that it took: one rule for each operation of `Reader`,
-- and one for each way to put readers in sequence.
use ort.Prelude.{
  ℕ, ◌%◌, ◌^◌, ◌<◌, ◌≡◌, refl, sym, ap, ◌∙◌, List, [], ◌∷◌, ◌++◌, append-nil, append_assoc, ok, err,
  ltb→le, Bool-cases, inl, inr, IsU16, IsU32, IsU64, IsByte, IsBytes, ltb, All-append_left,
  All-append_right, length, length-take, take, drop, drop-drop, take-append-drop, be_bytes,
  be_value, be_value-lt, be_bytes-be_value, and_then-eq-ok, arith,
}
use ort.Proto.Codec.Writer.{field16, field32}
use ort.Proto.Codec.Reader.{
  Reader, Parser, ◌>>=◌, pure, lift, remaining, take_bytes, first, u8, u16, u32, u64, array,
  bytes16, bytes32,
}
use ort.Proto.Codec.Parses.{unread, advance, remaining-unread}
use ort.Proto.Error.{ProtoResult}

pub record Inverse {A : Type 0} (p : Parser A) (R : A → List ℕ → Type 0) : Type 0 where
  pub at :
      (r : Reader) {a : A} {r' : Reader}
      → IsBytes (unread r)
      → p r ≡ ok (a, r')
      → (bs : List ℕ) × (unread r ≡ bs ++ unread r') × R a bs

pub pure-Inverse : {A : Type 0} (R : A → List ℕ → Type 0) (a : A) → R a [] → Inverse (pure a) R
unfolding pure
pure-Inverse R a h = record {
  at = λ r {a = b} {r' = r'} hb e.
      let same : a ≡ b = cc in ([], ap unread {x = r} {y = r'} (cc), rw (← same) h);
}

pub take-Inverse :
    (n : ℕ) → Inverse (take_bytes n) (λ s bs. (s ≡ bs) × (length bs ≡ n) × IsBytes bs)
unfolding take_bytes
take-Inverse n = record {
  at = λ r {a = s} {r' = r'} hb e. elim (Bool-cases (ltb (remaining r) n)) [
    | inl short ↦ let e' = rw short at e in cc
    | inr enough ↦
        let e' : ok (take n (unread r), advance n r) ≡ ok (s, r') = rw enough at e in
        let taken : take n (unread r) ≡ s = cc e' in
        let there : advance n r ≡ r' = cc e' in
        (
          take n (unread r),
          sym (take-append-drop n (unread r))
              ∙ ap (λ t. take n (unread r) ++ t) (drop-drop r.pos n r.buf ∙ ap unread there),
          (
            sym taken,
            omega (
              arith,
              length-take n (unread r),
              remaining-unread r,
              ltb→le (remaining r) n enough,
            ),
            All-append_left IsByte (take n (unread r)) (drop n (unread r)) (rw take-append-drop hb),
          ),
        )
  ];
}

module _ {A B : Type 0} {p : Parser A} {Q : A → List ℕ → Type 0} (f : A → Parser B)
    (R : B → List ℕ → Type 0) where
  pub Inverse-bind :
      Inverse p Q
      → ((a : A) (xs : List ℕ) → Q a xs → Inverse (f a) (λ b ys. R b (xs ++ ys)))
      → Inverse (p >>= f) R
  unfolding ◌>>=◌
  Inverse-bind hp hf = record {
    at = λ r {a = b} {r' = r'} hb e.
        let ((a, r1), pe, fe) = and_then-eq-ok (p r) _ e in
        let (xs, ux, qx) = hp.at r hb pe in
        let (ys, uy, ry) =
          (hf a xs qx).at r1 (All-append_right IsByte xs (unread r1) (rw ux at hb)) fe in
        (xs ++ ys, ux ∙ ap (λ t. xs ++ t) uy ∙ sym (append_assoc xs ys (unread r')), ry);
  }

module _ {A B : Type 0} {p : Parser A} {Q : A → List ℕ → Type 0} (g : A → B)
    (R : B → List ℕ → Type 0) where
  pub Inverse-map :
      Inverse p Q
      → ((a : A) (xs : List ℕ) → Q a xs → R (g a) xs)
      → Inverse (p >>= λ x. pure (g x)) R
  Inverse-map hp h =
      Inverse-bind (λ x. pure (g x)) R hp
        (λ a xs q. pure-Inverse _ (g a) (rw append-nil (h a xs q)))

first-IsByte :
    (s bs : List ℕ) → s ≡ bs → length bs ≡ 1 → IsBytes bs → IsByte (first s) × (bs ≡ first s ∷ [])
unfolding first
first-IsByte s [] same long hb = absurd (omega arith)
first-IsByte s (b ∷ []) same long hb = rw same (hb.0, refl)
first-IsByte s (b ∷ c ∷ bs) same long hb = absurd (omega arith)

pub u8-Inverse : Inverse u8 (λ v bs. IsByte v × (bs ≡ v ∷ []))
unfolding u8
u8-Inverse = Inverse-map _ _ (take-Inverse 1) (λ s bs q. first-IsByte s bs q.0 q.1 q.2)

word-Inverse :
    (w : ℕ)
    → Inverse
        (take_bytes w >>= λ b. pure (be_value b))
        (λ v bs. (v < 256 ^ w) × (bs ≡ be_bytes w v) × IsBytes bs)
word-Inverse w = Inverse-map be_value _ (take-Inverse w) (λ s bs (same, long, hb).
    rw same (be_value-lt w bs hb long, sym (be_bytes-be_value w bs hb long), hb))

pub u16-Inverse : Inverse u16 (λ v bs. IsU16 v × (bs ≡ be_bytes 2 v) × IsBytes bs)
unfolding u16
u16-Inverse = word-Inverse 2

pub u32-Inverse : Inverse u32 (λ v bs. IsU32 v × (bs ≡ be_bytes 4 v) × IsBytes bs)
unfolding u32
u32-Inverse = word-Inverse 4

pub u64-Inverse : Inverse u64 (λ v bs. IsU64 v × (bs ≡ be_bytes 8 v) × IsBytes bs)
unfolding u64
u64-Inverse = word-Inverse 8

pub array-Inverse : (n : ℕ) → Inverse (array n) (λ s bs. (s ≡ bs) × (length bs ≡ n) × IsBytes bs)
unfolding array
array-Inverse n = Inverse-map (λ s. s) _ (take-Inverse n) (λ s bs q. q)

pub Inverse-weaken :
    {A : Type 0} {p : Parser A} {Q : A → List ℕ → Type 0} (R : A → List ℕ → Type 0)
    → Inverse p Q
    → ((a : A) (xs : List ℕ) → Q a xs → R a xs)
    → Inverse p R
Inverse-weaken R hp h = record {
  at = λ r hb e. let (xs, ux, qx) = hp.at r hb e in (xs, ux, h _ xs qx);
}

pub bytes16-Inverse : Inverse bytes16 (λ s bs. (bs ≡ field16 s) × IsU16 (length s) × IsBytes s)
unfolding bytes16 field16
bytes16-Inverse = Inverse-bind take_bytes _ u16-Inverse (λ n xs (small, head, hx).
    Inverse-weaken _ (take-Inverse n) (λ s bs (same, long, hb). rw same (
      rw head (ap (λ t. be_bytes 2 t ++ bs) {x = n} {y = length bs % 2 ^ 16} (omega arith)),
      omega arith,
      hb,
    )))

pub bytes32-Inverse : Inverse bytes32 (λ s bs. (bs ≡ field32 s) × IsU32 (length s) × IsBytes s)
unfolding bytes32 field32
bytes32-Inverse = Inverse-bind take_bytes _ u32-Inverse (λ n xs (small, head, hx).
    Inverse-weaken _ (take-Inverse n) (λ s bs (same, long, hb). rw same (
      rw head (ap (λ t. be_bytes 4 t ++ bs) {x = n} {y = length bs % 2 ^ 32} (omega arith)),
      omega arith,
      hb,
    )))

pub lift-Inverse :
    {A : Type 0} (m : ProtoResult A) (R : A → List ℕ → Type 0)
    → ((a : A) → m ≡ ok a → R a [])
    → Inverse (lift m) R
unfolding lift
lift-Inverse (ok a) R h = record {
  at = λ r {a = b} {r' = r'} hb e.
      let same : a ≡ b = cc in ([], ap unread {x = r} {y = r'} (cc), rw (← same) (h a refl));
}
lift-Inverse (err x) R h = record { at = λ r hb e. cc }
