-- ===== src/Py/Text/Number.antt =====
-- Decimal numbers: `str(n)`, and `int(s)` of a text of decimal digits. `int` takes a sign, blanks and
-- underscores too, which Py/Text/Whole reads.
use Prim.Native.Char.{Char, code}
use Prim.Native.String.{◌++◌ as concat}
use text.Mathlib.TextLemmas.{nil-append, cons-append}
use evoid_plugins.Prelude.{
  ℕ, zero, suc, ◌+◌, ◌-◌, ◌*◌, ◌/◌, ◌%◌, ◌<◌, ◌≡◌, refl, ◌∙◌, String, false, ◌&&◌, Option, none,
  some, List, [], ◌∷◌, get_elem?, leb, ltb, if◌then◌else◌, arith, tests, ◌⊎◌, string_eq, Bool-cases,
  inl, inr,
}
use evoid_plugins.Py.Text.{has_char, split}

abbrev digits : List Char
digits = "0" ∷ "1" ∷ "2" ∷ "3" ∷ "4" ∷ "5" ∷ "6" ∷ "7" ∷ "8" ∷ "9" ∷ []

digit : ℕ → Char
digit d = elim (get_elem? digits d) [ none ↦ "0" | some c ↦ c ]

-- `n + 1` rounds are enough, since a round divides by 10.
decimal_onto : ℕ → ℕ → String → String
decimal_onto zero n rest = rest
decimal_onto (suc rounds) n rest =
    let longer = decimal_onto rounds (n / 10) (String.◌∷◌ (digit (n % 10)) rest) in
    if ltb n 10 then String.◌∷◌ (digit (n % 10)) rest else longer

-- `str(n)`
unfoldable pub decimal : ℕ → String
unfolding decimal_onto digit
decimal n = decimal_onto (n + 1) n ""

unfoldable pub number_onto : ℕ → String → Option ℕ
number_onto n String.[] = some n
number_onto n (String.◌∷◌ c s) =
    let rest = number_onto (n * 10 + (code c - 48)) s in
    if leb 48 (code c) && leb (code c) 57 then rest else none

-- the number that the digits of a text say, `none` where it has another character or none at all
unfoldable pub int_of : String → Option ℕ
unfolding number_onto
int_of String.[] = none
int_of (String.◌∷◌ c s) = number_onto 0 (String.◌∷◌ c s)

code-digit : (d : ℕ) → d < 10 → code (digit d) ≡ 48 + d
unfolding digit
code-digit zero h = refl
code-digit (suc zero) h = refl
code-digit (suc (suc zero)) h = refl
code-digit (suc (suc (suc zero))) h = refl
code-digit (suc (suc (suc (suc zero)))) h = refl
code-digit (suc (suc (suc (suc (suc zero))))) h = refl
code-digit (suc (suc (suc (suc (suc (suc zero)))))) h = refl
code-digit (suc (suc (suc (suc (suc (suc (suc zero))))))) h = refl
code-digit (suc (suc (suc (suc (suc (suc (suc (suc zero)))))))) h = refl
code-digit (suc (suc (suc (suc (suc (suc (suc (suc (suc zero))))))))) h = refl
code-digit (suc (suc (suc (suc (suc (suc (suc (suc (suc (suc d)))))))))) h = absurd (omega arith)

number_onto-decimal_onto :
    (rounds n : ℕ) (rest : String)
    → n < rounds
    → number_onto 0 (decimal_onto rounds n rest) ≡ number_onto n rest
unfolding number_onto decimal_onto
number_onto-decimal_onto zero n rest h = absurd (omega arith)
number_onto-decimal_onto (suc rounds) n rest h = elim (Bool-cases (ltb n 10)) [
  | inl small ↦ let e : n % 10 ≡ n = omega tests in ground (arith, e, code-digit n)
  | inr big ↦ rw big (
      number_onto-decimal_onto rounds (n / 10) (String.◌∷◌ (digit (n % 10)) rest) (ground arith)
      ∙ ground (arith, code-digit (n % 10) (omega arith)))
]

has_char-decimal_onto :
    (c rounds n : ℕ) (rest : String)
    → c < 48 ⊎ 57 < c
    → has_char c rest ≡ false
    → has_char c (decimal_onto rounds n rest) ≡ false
unfolding has_char decimal_onto
has_char-decimal_onto c zero n rest other h = h
has_char-decimal_onto c (suc rounds) n rest other h = ground (
  arith,
  code-digit (n % 10),
  has_char-decimal_onto c rounds (n / 10) (String.◌∷◌ (digit (n % 10)) rest),
)

int_of-decimal_onto :
    (rounds n : ℕ) (c : Char) (rest : String)
    → int_of (decimal_onto rounds n (String.◌∷◌ c rest))
      ≡ number_onto 0 (decimal_onto rounds n (String.◌∷◌ c rest))
unfolding int_of decimal_onto
int_of-decimal_onto zero n c rest = refl
int_of-decimal_onto (suc rounds) n c rest = elim (Bool-cases (ltb n 10)) [
  | inl small ↦ rw small refl
  | inr big ↦ rw big (int_of-decimal_onto rounds (n / 10) (digit (n % 10)) (String.◌∷◌ c rest))
]

int_of-decimal_rounds :
    (rounds n : ℕ)
    → int_of (decimal_onto (suc rounds) n "") ≡ number_onto 0 (decimal_onto (suc rounds) n "")
unfolding int_of decimal_onto
int_of-decimal_rounds rounds n = elim (Bool-cases (ltb n 10)) [
  | inl small ↦ rw small refl
  | inr big ↦ rw big (int_of-decimal_onto rounds (n / 10) (digit (n % 10)) "")
]

-- A number that was printed is read back.
pub int_of-decimal : (n : ℕ) → int_of (decimal n) ≡ some n
unfolding decimal number_onto
int_of-decimal n =
    let e : n + 1 ≡ suc n = omega arith in
    rw e (int_of-decimal_rounds n n ∙ number_onto-decimal_onto (suc n) n "" (omega arith))

pub has_char-decimal : (n : ℕ) → has_char b':' (decimal n) ≡ false
unfolding decimal has_char
has_char-decimal n = has_char-decimal_onto b':' (n + 1) n "" (inr (omega arith)) refl

-- The first separator ends the first part.
pub split-concat :
    (c : ℕ) (s : String) (d : Char) (t : String)
    → has_char c s ≡ false
    → code d ≡ c
    → split c (concat s (String.◌∷◌ d t)) ≡ s ∷ split c t
unfolding has_char split
split-concat c String.[] d t h e = rw nil-append (ground arith)
split-concat c (String.◌∷◌ b s) d t h e = rw cons-append (ground (arith, split-concat c s d t))
