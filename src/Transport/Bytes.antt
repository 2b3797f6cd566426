-- ===== src/Transport/Bytes.antt =====
-- Bytes as numbers below 256, and the integers of Python's `struct` in big-endian order, for
-- packages/evoid-transport/evoid_transport/__init__.py.
use evoid_plugins.Prelude.{
  ℕ, zero, suc, ◌+◌, ◌*◌, ◌/◌, ◌%◌, ◌^◌, ◌≤◌, ◌<◌, ◌≡◌, refl, ap, List, [], ◌∷◌, ◌++◌, arith,
  length, drop, length-append,
}

abbrev pub Bytes : Type 0
Bytes = List ℕ

-- `2 ** 32`
abbrev pub word : ℕ
word = 0x1_0000_0000

-- the unsigned integer of `k` bytes
unfoldable pub be : ℕ → ℕ → Bytes
be zero n = []
be (suc k) n = be k (n / 256) ++ (n % 256) ∷ []

unfoldable pub from_be_onto : ℕ → Bytes → ℕ
from_be_onto acc [] = acc
from_be_onto acc (b ∷ bs) = from_be_onto (acc * 256 + b) bs

unfoldable pub from_be : Bytes → ℕ
from_be bs = from_be_onto 0 bs

module _ {ℓ} {A : Type ℓ} where
  -- `xs[:n]`
  abbrev pub take : ℕ → List A → List A
  take zero xs = []
  take (suc n) [] = []
  take (suc n) (x ∷ xs) = x ∷ take n xs

  pub take-length-append : (xs ys : List A) → take (length xs) (xs ++ ys) ≡ xs
  take-length-append [] ys = refl
  take-length-append (x ∷ xs) ys = ap (λ l. x ∷ l) (take-length-append xs ys)

  pub take_all : (xs : List A) → take (length xs) xs ≡ xs
  take_all [] = refl
  take_all (x ∷ xs) = ap (λ l. x ∷ l) (take_all xs)

  pub take_fits : (n : ℕ) (xs : List A) → length xs ≤ n → take n xs ≡ xs
  take_fits zero [] h = refl
  take_fits zero (x ∷ xs) h = absurd (omega arith)
  take_fits (suc n) [] h = refl
  take_fits (suc n) (x ∷ xs) h = ap (λ l. x ∷ l) (take_fits n xs (omega arith))

  pub length-take : (n : ℕ) (xs : List A) → n ≤ length xs → length (take n xs) ≡ n
  length-take zero xs h = refl
  length-take (suc n) [] h = absurd (omega arith)
  length-take (suc n) (x ∷ xs) h = omega (arith, length-take n xs (omega arith))

-- `data[i : i + n]`
unfoldable pub slice : ℕ → ℕ → Bytes → Bytes
slice i n bytes = take n (drop i bytes)

pub length-be : (k n : ℕ) → length (be k n) ≡ k
unfolding be
length-be zero n = refl
length-be (suc k) n =
    omega (arith, length-append (be k (n / 256)) ((n % 256) ∷ []), length-be k (n / 256))

from_be_onto-snoc :
    (acc : ℕ) (bs : Bytes) (b : ℕ) → from_be_onto acc (bs ++ b ∷ []) ≡ from_be_onto acc bs * 256 + b
unfolding from_be_onto
from_be_onto-snoc acc [] b = refl
from_be_onto-snoc acc (c ∷ bs) b = from_be_onto-snoc (acc * 256 + c) bs b

-- What fits into `k` bytes is read back.
pub from_be-be : (k n : ℕ) → n < 256 ^ k → from_be (be k n) ≡ n
unfolding be from_be from_be_onto
from_be-be zero n h = omega arith
from_be-be (suc k) n h =
    omega
      (arith, from_be_onto-snoc 0 (be k (n / 256)) (n % 256), from_be-be k (n / 256) (omega arith))
