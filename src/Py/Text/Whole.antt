-- ===== src/Py/Text/Whole.antt =====
-- `int(s)` of Python, on texts of ASCII characters: blanks around the number, a sign, and underscores
-- between its digits. Other digits of Unicode are no digits here.
use Prim.Native.Char.{Char, code}
use evoid_plugins.Prelude.{
  ℕ, zero, suc, ◌+◌, ◌-◌, ◌*◌, ◌≡◌, refl, ap, String, Bool, true, false, ◌&&◌, ◌||◌, Option, none,
  some, nat_beq, leb, arith, if◌then◌else◌,
}
use Prim.Native.String.{◌++◌ as concat}
use evoid_plugins.Py.Text.Number.{decimal, int_of, number_onto}
use evoid_plugins.Py.Text.Slashes.{is_empty}

pub data Whole : Type 0 where
  natural : ℕ → Whole
  negative : ℕ → Whole

-- `str(n)`
abbrev pub whole_text : Whole → String
whole_text (natural n) = decimal n
whole_text (negative n) = concat "-" (decimal n)

abbrev negated : ℕ → Whole
negated zero = natural 0
negated (suc n) = negative (suc n)

abbrev signed : (ℕ → Whole) → Option ℕ → Option Whole
signed sign none = none
signed sign (some n) = some (sign n)

-- `c.isspace()`
abbrev is_blank : Char → Bool
is_blank c =
    nat_beq (code c) 32 || (leb 9 (code c) && leb (code c) 13 || leb 28 (code c) && leb (code c) 31)

drop_front : String → String
drop_front String.[] = ""
drop_front (String.◌∷◌ c s) = let rest = drop_front s in if is_blank c then rest else String.◌∷◌ c s

drop_back : String → String
drop_back String.[] = ""
drop_back (String.◌∷◌ c s) =
    let rest = drop_back s in if is_blank c && is_empty rest then "" else String.◌∷◌ c rest

abbrev with_char : Char → Option String → Option String
with_char c none = none
with_char c (some s) = some (String.◌∷◌ c s)

-- the text without its underscores, if each stands between two other characters; `inside` says whether
-- one stands before
grouped : Bool → String → Option String
grouped inside String.[] = if inside then some "" else none
grouped inside (String.◌∷◌ c s) =
    let after_digit = grouped true s in
    let after_underscore = grouped false s in
    if nat_beq (code c) b'_'
    then if inside then after_underscore else none
    else with_char c after_digit

abbrev number_in : Option String → Option ℕ
number_in none = none
number_in (some digits) = int_of digits

signed_number : String → Option Whole
unfolding grouped
signed_number String.[] = none
signed_number (String.◌∷◌ c s) =
    if nat_beq (code c) b'-'
    then signed negated (number_in (grouped false s))
    else if nat_beq (code c) b'+'
    then signed natural (number_in (grouped false s))
    else signed natural (number_in (grouped false (String.◌∷◌ c s)))

-- `int(s)`, `none` for the `ValueError`
unfoldable pub whole_of : String → Option Whole
unfolding signed_number drop_front drop_back
whole_of s = signed_number (drop_back (drop_front s))

all_digits : String → Bool
all_digits String.[] = true
all_digits (String.◌∷◌ c s) = (leb 48 (code c) && leb (code c) 57) && all_digits s

all_digits-number_onto :
    (k : ℕ) (s : String) (n : ℕ) → number_onto k s ≡ some n → all_digits s ≡ true
unfolding all_digits number_onto
all_digits-number_onto k String.[] n h = refl
all_digits-number_onto k (String.◌∷◌ c s) n h =
    ground (arith, h, all_digits-number_onto (k * 10 + (code c - 48)) s n)

drop_front-digits : (s : String) → all_digits s ≡ true → drop_front s ≡ s
unfolding all_digits drop_front
drop_front-digits String.[] h = refl
drop_front-digits (String.◌∷◌ c s) h = ground (arith, h)

drop_back-digits : (s : String) → all_digits s ≡ true → drop_back s ≡ s
unfolding all_digits drop_back
drop_back-digits String.[] h = refl
drop_back-digits (String.◌∷◌ c s) h = ground (arith, h, drop_back-digits s)

grouped-digits : (s : String) → all_digits s ≡ true → grouped true s ≡ some s
unfolding all_digits grouped
grouped-digits String.[] h = refl
grouped-digits (String.◌∷◌ c s) h = ground (arith, h, grouped-digits s)

signed_number-digits :
    (c : Char) (s : String)
    → all_digits (String.◌∷◌ c s) ≡ true
    → signed_number (String.◌∷◌ c s) ≡ signed natural (int_of (String.◌∷◌ c s))
unfolding all_digits signed_number grouped
signed_number-digits c s h = ground (arith, h, grouped-digits s)

-- A text of digits alone is read as its number.
pub whole_of-int_of : (s : String) (n : ℕ) → int_of s ≡ some n → whole_of s ≡ some (natural n)
unfolding whole_of int_of
whole_of-int_of String.[] n h = cc
whole_of-int_of (String.◌∷◌ c s) n h =
    let plain = all_digits-number_onto 0 (String.◌∷◌ c s) n h in
    rw
      (
        drop_front-digits (String.◌∷◌ c s) plain,
        drop_back-digits (String.◌∷◌ c s) plain,
        signed_number-digits c s plain,
      )
      (ap (signed natural) h)
