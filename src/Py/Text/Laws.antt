-- ===== src/Py/Text/Laws.antt =====
-- Laws of the operations on texts.
use Prim.Native.String.{◌++◌ as concat}
use evoid_plugins.Prelude.{String, ◌≡◌, refl, ap, some, [], ◌∷◌, false, arith}
use text.Mathlib.TextLemmas.{nil-append, cons-append}
use evoid_plugins.Py.Text.{strip_prefix, has_char, split}

-- What was put in front is taken off.
pub strip_prefix-append : (p s : String) → strip_prefix p (concat p s) ≡ some s
unfolding strip_prefix
strip_prefix-append String.[] s = ap some (nil-append s)
strip_prefix-append (String.◌∷◌ c p) s = rw cons-append (ground (arith, strip_prefix-append p s))

-- A text without the separator is its only part.
pub split_one : (c : _) (s : String) → has_char c s ≡ false → split c s ≡ s ∷ []
unfolding has_char split
split_one c String.[] h = refl
split_one c (String.◌∷◌ d s) h = ground (arith, split_one c s)
