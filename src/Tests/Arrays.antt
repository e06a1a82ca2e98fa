-- ===== src/Tests/Arrays.antt =====
-- Arrays of bytes of a given length.
use ort.Prelude.{
  ℕ, zero, suc, ◌%◌, ◌≡◌, refl, List, ◌++◌, map, length, take, replicate, length-replicate,
  length-append, length-take, IsBytes, arith,
}
use native.Mathlib.Decide.{ℕ_discrete}
use native.Mathlib.Nat.{ℕ_set}
use mathlib.Core.HLevel.{Σ_prop_path}
use ort.Tests.Toy.{map-IsBytes, length-map}

-- An array of `n` bytes, and the one of a vector that has that length.
abbrev pub Array : ℕ → Type 0
Array n = (bytes : List ℕ) × (length bytes ≡ n)

unfoldable pub zeros : ℕ → List ℕ
zeros n = replicate n 0

pub length-zeros : (n : ℕ) → length (zeros n) ≡ n
unfolding zeros
length-zeros n = length-replicate n 0

unfoldable pub decided : (n : ℕ) (bytes : List ℕ) → Dec (length bytes ≡ n) → Array n
decided n bytes (yes h) = (bytes, h)
decided n bytes (no _) = (zeros n, length-zeros n)

unfoldable pub array : (n : ℕ) → List ℕ → Array n
array n bytes = decided n bytes (ℕ_discrete (length bytes) n)

decided-long :
    (n : ℕ) (bytes : List ℕ) (x : Dec (length bytes ≡ n))
    → length bytes ≡ n
    → (decided n bytes x).0 ≡ bytes
unfolding decided
decided-long n bytes (yes _) h = refl
decided-long n bytes (no not) h = absurd (not h)

pub array-long : (n : ℕ) (bytes : List ℕ) → length bytes ≡ n → (array n bytes).0 ≡ bytes
unfolding array
array-long n bytes h = decided-long n bytes (ℕ_discrete (length bytes) n) h

pub array-eta : (n : ℕ) (a : Array n) → array n a.0 ≡ a
array-eta n a = Σ_prop_path (λ _. ℕ_set _ _) (array-long n a.0 a.1)

-- The first `n` bytes, with zeros where there are fewer.
unfoldable pub sized : ℕ → List ℕ → List ℕ
sized n bytes = map (λ b. b % 256) (take n (bytes ++ zeros n))

pub length-sized : (n : ℕ) (bytes : List ℕ) → length (sized n bytes) ≡ n
unfolding sized
length-sized n bytes = omega (
  arith,
  length-map (λ b. b % 256) (take n (bytes ++ zeros n)),
  length-take n (bytes ++ zeros n),
  length-append bytes (zeros n),
  length-zeros n,
)

pub sized-IsBytes : (n : ℕ) (bytes : List ℕ) → IsBytes (sized n bytes)
unfolding sized
sized-IsBytes n bytes = map-IsBytes (take n (bytes ++ zeros n))

pub zeros-IsBytes : (n : ℕ) → IsBytes (zeros n)
unfolding zeros
zeros-IsBytes zero = tt
zeros-IsBytes (suc n) = (omega arith, zeros-IsBytes n)
