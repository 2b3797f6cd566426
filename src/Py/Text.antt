-- ===== src/Py/Text.antt =====
-- Python's operations on texts that the plugins use, by recursion on the characters.
pub mod Laws
pub mod Number
pub mod Slashes
pub mod Whole
pub mod Once
use Prim.Native.Char.{Char, code}
use Prim.Native.String.{◌++◌ as concat}
use evoid_plugins.Prelude.{
  String, Bool, true, false, ◌||◌, Option, none, some, List, [], ◌∷◌, if◌then◌else◌, nat_beq, ℕ,
}

-- `s[len(p):]` if `s.startswith(p)`
unfoldable pub strip_prefix : String → String → Option String
strip_prefix String.[] s = some s
strip_prefix (String.◌∷◌ c p) String.[] = none
strip_prefix (String.◌∷◌ c p) (String.◌∷◌ d s) =
    let rest = strip_prefix p s in if nat_beq (code c) (code d) then rest else none

-- `c in s`, for a character by its code
unfoldable pub has_char : ℕ → String → Bool
has_char c String.[] = false
has_char c (String.◌∷◌ d s) = nat_beq (code d) c || has_char c s

abbrev push : Char → List String → List String
push c [] = String.◌∷◌ c "" ∷ []
push c (part ∷ rest) = String.◌∷◌ c part ∷ rest

-- `s.split(c)`
unfoldable pub split : ℕ → String → List String
split c String.[] = "" ∷ []
split c (String.◌∷◌ d s) =
    let rest = split c s in if nat_beq (code d) c then "" ∷ rest else push d rest
