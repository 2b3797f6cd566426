-- ===== src/Py/Text/Once.antt =====
-- `s.split(c, 1)` of Python's texts.
use Prim.Native.Char.{Char, code}
use Prim.Native.String.{◌++◌ as concat}
use text.Mathlib.TextLemmas.{nil-append, cons-append}
use evoid_plugins.Prelude.{ℕ, String, false, ◌≡◌, Option, none, some, nat_beq, if◌then◌else◌, arith}
use evoid_plugins.Py.Text.{has_char}

abbrev longer : Char → Option (String × String) → Option (String × String)
longer d none = none
longer d (some (front, rest)) = some (String.◌∷◌ d front, rest)

-- the two parts, `none` where the character is not in the text
unfoldable pub split_once : ℕ → String → Option (String × String)
split_once c String.[] = none
split_once c (String.◌∷◌ d s) =
    let later = split_once c s in if nat_beq (code d) c then some ("", s) else longer d later

pub split_once-concat :
    (sep : Char) (front rest : String)
    → has_char (code sep) front ≡ false
    → split_once (code sep) (concat front (String.◌∷◌ sep rest)) ≡ some (front, rest)
unfolding split_once has_char
split_once-concat sep String.[] rest plain = rw (nil-append (String.◌∷◌ sep rest)) (ground arith)
split_once-concat sep (String.◌∷◌ d front) rest plain =
    rw cons-append (ground (arith, split_once-concat sep front rest))
